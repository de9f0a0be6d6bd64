-- ===== src/Core/Conn.antt =====
-- The connection state machine (crates/caw-core/src/conn.rs): its states, what it is told and what
-- it asks for. A method that pushes on `out` returns its actions; none is a panic.
pub mod Transition
pub mod Negotiate
pub mod Join
pub mod Plan
pub mod Handshake
pub mod Keys
pub mod Address
pub mod Events
pub mod Replay
pub mod Clock
pub mod Timed
pub mod TimedJoin
pub mod TimedHandshake
pub mod TimedKeys
pub mod TimedAddress
pub mod TimedEvents
pub mod TimedPoll
pub mod Runs
pub mod Failing
mod Examples
use caw.Prelude.{
  ℕ, ◌+◌, ◌-◌, ◌*◌, ◌^◌, Bool, true, false, not, List, [], ◌∷◌, ◌++◌, if◌then◌else◌, Option, none,
  some, min,
}
use caw.Prelude.Ints.{ℤ}
use caw.Prelude.Words.{bytes_eq}
use caw.Wifi.Suites.{Akm, psk, Cipher, Security}
use caw.Wifi.Nl80211.{Bss, Event}
use caw.Crypto.{Ptk, AuthContext}
use caw.Eapol.Key.Data.{Gtk}
use caw.Eapol.FourWay.{FourWay}
use caw.Dhcp.Lease.{Lease}
use caw.Dhcp.Client.{Reason}
use caw.Core.Profile.{Profile}
use caw.Core.Failure.{Failure}
use caw.Core.Auth.{Providers, Auth, DeviceCaps, Offload}

abbrev pub scan_timeout_ms : ℕ
scan_timeout_ms = 10_000

abbrev pub auth_timeout_ms : ℕ
auth_timeout_ms = 3000

abbrev pub assoc_timeout_ms : ℕ
assoc_timeout_ms = 8000

abbrev pub backoff_base_ms : ℕ
backoff_base_ms = 1000

abbrev pub backoff_max_ms : ℕ
backoff_max_ms = 60_000

abbrev pub reason_leaving : ℕ
reason_leaving = 3

pub data State : Type 0 where
  idle scanning authenticating associating handshaking configuring connected reconnecting : State

pub data TimerId : Type 0 where
  scan_timeout auth_timeout assoc_timeout handshake_retry reconnect_backoff : TimerId

pub record Device : Type 0 where
  pub ifindex : ℕ
  pub mac : List ℕ
  pub caps : DeviceCaps

pub data Command : Type 0 where
  connect : List ℕ → Command
  autoconnect_command : Command
  secret_command : List ℕ → Command
  disconnect_command : Command

pub data LeaseEvent : Type 0 where
  acquired : Lease → LeaseEvent
  lease_lost : Reason → LeaseEvent
  lease_failed : LeaseEvent

pub data Input : Type 0 where
  command : Command → Input
  wireless : Event → Input
  scan_results : List Bss → Input
  eapol_input : List ℕ → Input
  lease_input : LeaseEvent → Input
  timer_input : TimerId → Input

pub record AuthRequest : Type 0 where
  pub ifindex : ℕ
  pub ssid : List ℕ
  pub bssid : List ℕ
  pub freq_mhz : ℕ
  pub auth_type : ℕ
  pub body : List ℕ

pub record AssocRequest : Type 0 where
  pub ifindex : ℕ
  pub ssid : List ℕ
  pub bssid : List ℕ
  pub freq_mhz : ℕ
  pub auth_type : ℕ
  pub wpa_versions : ℕ
  pub pairwise_ciphers : List ℕ
  pub group_cipher : Option ℕ
  pub akms : List ℕ
  pub mfp : Option ℕ
  pub ies : List ℕ
  pub offload : Option Offload
  pub authenticated : Bool

pub record PairwiseKey : Type 0 where
  pub peer : List ℕ
  pub cipher : ℕ
  pub ptk : Ptk

pub record GroupKey : Type 0 where
  pub cipher : ℕ
  pub gtk : Gtk

pub record KeyInstall : Type 0 where
  pub pairwise : Option PairwiseKey
  pub group : GroupKey

-- `request_secret` holds the SSID that the prompt prints.
pub data Action : Type 0 where
  trigger_scan : ℕ → Action
  fetch_scan_results : ℕ → Action
  associate_action : AssocRequest → Action
  authenticate_action : AuthRequest → Action
  disconnect_action : ℕ → Action
  send_eapol : List ℕ → Action
  install_keys : KeyInstall → Action
  start_dhcp : Action
  apply_lease : Lease → Action
  set_timer : TimerId → ℕ → Action
  clear_timer : TimerId → Action
  request_secret : List ℕ → Action
  save_profile_action : Profile → Action
  notify : State → Action
  failed : Failure → Action

pub record Target : Type 0 where
  pub ssid : List ℕ
  pub secret : Option (List ℕ)
  pub retry : Bool
  pub save : Bool

pub record Negotiated : Type 0 where
  pub akm : Akm
  pub pairwise : Cipher
  pub group : Cipher
  pub group_mgmt : Option Cipher
  pub mfp_capable : Bool
  pub mfp_required : Bool
  pub beacon_ie : List ℕ

pub record Choice : Type 0 where
  pub bssid : List ℕ
  pub freq_mhz : ℕ
  pub signal_dbm : ℤ
  pub advertised : Security
  pub negotiated : Security
  pub rsn : Option Negotiated
  pub roaming : Bool

pub record Session (P : Providers) : Type 0 where
  pub choice : Choice
  pub auth : Auth P
  pub pmkid : Option (List ℕ)
  pub assoc_ie : List ℕ
  pub handshake : Option FourWay

pub record Connection (P : Providers) : Type 0 where
  pub device : Device
  pub profiles : List Profile
  pub state : State
  pub target : Option Target
  pub session : Option (Session P)
  pub attempts : ℕ
  pub armed : Option TimerId
  pub pending : Option Bss

-- `profiles.retain(|p| p.ssid != ssid)`
unfoldable pub without : List ℕ → List Profile → List Profile
without ssid [] = []
without ssid (p ∷ ps) = if bytes_eq p.ssid ssid then without ssid ps else p ∷ without ssid ps

unfoldable pub retry_as : Profile → Option Target → Option Target
retry_as profile none = none
retry_as profile (some target) = some (
    if bytes_eq target.ssid profile.ssid
    then record target { retry = profile.autoconnect }
    else target)

unfoldable pub timer_of : State → Option TimerId
timer_of idle = none
timer_of scanning = some scan_timeout
timer_of authenticating = some auth_timeout
timer_of associating = some assoc_timeout
timer_of handshaking = some handshake_retry
timer_of configuring = none
timer_of connected = some handshake_retry
timer_of reconnecting = some reconnect_backoff

-- `attempt` counts from one. The product is below 64 bits.
unfoldable pub backoff_ms : ℕ → ℕ
backoff_ms attempt = min (backoff_base_ms * 2 ^ min (min (attempt - 1) 31) 20) backoff_max_ms

abbrev akm_or_psk : Option Negotiated → Akm
akm_or_psk none = psk
akm_or_psk (some n) = n.akm

unfoldable pub auth_context : List ℕ → Choice → List ℕ → AuthContext
auth_context ssid choice own_mac = record {
  ssid = ssid;
  bssid = choice.bssid;
  own_mac = own_mac;
  akm = akm_or_psk choice.rsn;
}

module _ (P : Providers) where
  unfoldable pub new : Device → List Profile → Connection P
  new device profiles = record {
    device = device;
    profiles = profiles;
    state = idle;
    target = none;
    session = none;
    attempts = 0;
    armed = none;
    pending = none;
  }

  unfoldable pub insert_profile : Connection P → Profile → Connection P
  insert_profile c profile = record c {
    target = retry_as profile c.target;
    profiles = without profile.ssid c.profiles ++ (profile ∷ []);
  }

  unfoldable pub forget_profile : Connection P → List ℕ → Connection P
  forget_profile c ssid = record c { profiles = without ssid c.profiles }
