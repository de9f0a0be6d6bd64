-- ===== src/Eapol/FourWay.antt =====
-- The 4-way handshake and the group rekeys after it (crates/caw-eapol/src/lib.rs, `FourWay`). A
-- handler returns the new machine; `Primitives` is what other packages and caw-crypto compute.
pub mod Inversion
pub mod Handlers
pub mod Authentic
pub mod Counters
pub mod Failure
pub mod Reinstall
mod Examples
use caw.Prelude.{
  ℕ, ◌+◌, Bool, true, false, not, ◌||◌, List, [], ◌∷◌, ◌==◌, leb, if◌then◌else◌, Option, none, some,
  Result, ok, err, ◌>>=◌, ◌>>◌, fail_if, ok_or, bit_or, replicate,
}
use caw.Prelude.Words.{bytes_eq}
use caw.Wifi.Suites.{Akm}
use caw.Crypto.{CryptoError, Ptk}
use caw.Crypto.Mic.{Macs, KeyDescriptorVersion, hmac_sha1_version, version_bits}
use caw.Eap.Error.{
  Error, malformed, unsupported_descriptor, unexpected_message, replayed_counter, nonce_mismatch,
  rsn_missing, rsn_mismatch, handshake_timeout,
}
use caw.Eapol.Frame
use caw.Eapol.Frame.{Eapol, PacketType, key_packet}
use caw.Eapol.Key
use caw.Eapol.Key.{
  KeyFrame, descriptor_type_rsn, has_bit, pairwise_bit, ack_bit, mic_bit, secure_bit, request_bit,
  encrypted_bit, lift_crypto, version_of, encode_signed, verify_frame_mic,
}
use caw.Eapol.Key.Data.{Gtk, gtk_kde, rsn_element}

pub record Config : Type 0 where
  pub akm : Akm
  pub own_mac : List ℕ
  pub bssid : List ℕ
  pub assoc_rsn_ie : List ℕ
  pub beacon_rsn_ie : List ℕ

-- `derive_ptk` takes the PMK, the suite, the BSSID, our address, the ANonce and the SNonce;
-- `unwrap_key_data` the KEK and the wrapped bytes.
pub record Primitives : Type 0 where
  pub macs : Macs
  pub derive_ptk : List ℕ → Akm → List ℕ → List ℕ → List ℕ → List ℕ → Result Ptk CryptoError
  pub unwrap_key_data : List ℕ → List ℕ → Result (List ℕ) CryptoError

pub data Input : Type 0 where
  frame_input : List ℕ → Input
  timeout_input : Input

pub record Keys : Type 0 where
  pub ptk : Ptk
  pub gtk : Gtk

pub data Action : Type 0 where
  send : List ℕ → Action
  arm_timer : ℕ → Action
  disarm_timer : Action
  complete : Keys → Action
  new_gtk : Gtk → Action

pub data State : Type 0 where
  idle awaiting_msg3 established failed : State

pub record FourWay : Type 0 where
  pub pmk : List ℕ
  pub config : Config
  pub snonce : List ℕ
  pub anonce : List ℕ
  pub ptk : Option Ptk
  pub descriptor_version : KeyDescriptorVersion
  pub protocol_version : ℕ
  pub rx_counter : Option ℕ
  pub state : State
  pub last_sent : Option (List ℕ)
  pub retries : ℕ

abbrev pub retry_interval_ms : ℕ
retry_interval_ms = 1000

abbrev pub retry_limit : ℕ
retry_limit = 3

unfoldable pub with_snonce : List ℕ → Config → List ℕ → FourWay
with_snonce pmk config snonce = record {
  pmk = pmk;
  config = config;
  snonce = snonce;
  anonce = replicate 32 0;
  ptk = none;
  descriptor_version = hmac_sha1_version;
  protocol_version = 2;
  rx_counter = none;
  state = idle;
  last_sent = none;
  retries = 0;
}

-- Why a handler stops: an error, or a panic.
pub data Fault : Type 0 where
  failed_with : Error → Fault
  panicked : Fault

unfoldable pub attempt : {A : Type 0} → Result A Error → Result A Fault
attempt (ok a) = ok a
attempt (err e) = err (failed_with e)

-- The replies have these fields in common.
abbrev pub reply_frame : ℕ → ℕ → List ℕ → List ℕ → KeyFrame
reply_frame key_info replay_counter key_nonce key_data = record {
  descriptor_type = descriptor_type_rsn;
  key_info = key_info;
  key_length = 0;
  replay_counter = replay_counter;
  key_nonce = key_nonce;
  key_iv = replicate 16 0;
  key_rsc = replicate 8 0;
  key_mic = replicate 16 0;
  key_data = key_data;
}

unfoldable pub after_msg1 :
    FourWay → Eapol → KeyFrame → KeyDescriptorVersion → Ptk → List ℕ → FourWay
after_msg1 h eapol msg1 version ptk msg2 = record h {
  anonce = msg1.key_nonce;
  descriptor_version = version;
  protocol_version = eapol.version;
  rx_counter = some msg1.replay_counter;
  ptk = some ptk;
  state = awaiting_msg3;
  retries = 0;
  last_sent = some msg2;
}

unfoldable pub after_msg3 : FourWay → KeyFrame → FourWay
after_msg3 h msg3 = record h {
  rx_counter = some msg3.replay_counter;
  state = established;
  last_sent = none;
  retries = 0;
}

abbrev pub installed : Bool → Ptk → Gtk → List Action
installed true ptk gtk = complete (record { ptk = ptk; gtk = gtk }) ∷ []
installed false ptk gtk = []

unfoldable pub is_after : Option ℕ → ℕ → Bool
is_after none counter = true
is_after (some seen) counter = not (leb counter seen)

unfoldable pub is_failed : State → Bool
is_failed failed = true
is_failed _ = false

-- A frame that no authenticator sends to a supplicant.
unfoldable pub is_silent : KeyFrame → Bool
is_silent frame = not (has_bit frame.key_info ack_bit) || has_bit frame.key_info request_bit

module _ (prim : Primitives) where
  -- The PTK under an ANonce.
  unfoldable pub derive : FourWay → List ℕ → Result Ptk Error
  derive h anonce =
      lift_crypto
        (prim.derive_ptk h.pmk h.config.akm h.config.bssid h.config.own_mac anonce h.snonce)

  unfoldable pub msg2_of : FourWay → Eapol → KeyFrame → KeyDescriptorVersion → Ptk → Option (List ℕ)
  msg2_of h eapol msg1 version ptk =
      let key_info = bit_or (bit_or (version_bits version) pairwise_bit) mic_bit in
      encode_signed prim.macs
        (reply_frame key_info msg1.replay_counter h.snonce h.config.assoc_rsn_ie) eapol.version
        ptk.kck version

  unfoldable pub msg4_of : FourWay → KeyFrame → Ptk → Option (List ℕ)
  msg4_of h msg3 ptk =
      let pairwise_mic = bit_or (bit_or (version_bits h.descriptor_version) pairwise_bit) mic_bit in
      encode_signed prim.macs
        (reply_frame (bit_or pairwise_mic secure_bit) msg3.replay_counter (replicate 32 0) [])
        h.protocol_version ptk.kck h.descriptor_version

  unfoldable pub group_msg2_of : FourWay → KeyFrame → Ptk → Option (List ℕ)
  group_msg2_of h msg1 ptk =
      let key_info = bit_or (bit_or (version_bits h.descriptor_version) mic_bit) secure_bit in
      encode_signed prim.macs (reply_frame key_info msg1.replay_counter (replicate 32 0) [])
        h.protocol_version ptk.kck h.descriptor_version

  unfoldable pub on_msg1 : FourWay → Eapol → KeyFrame → Result (FourWay × List Action) Fault
  on_msg1 h eapol msg1 = do
    version ← attempt (version_of msg1.key_info h.config.akm)
    ptk ← attempt (derive h msg1.key_nonce)
    msg2 ← ok_or (msg2_of h eapol msg1 version ptk) panicked
    ok (after_msg1 h eapol msg1 version ptk msg2, send msg2 ∷ arm_timer retry_interval_ms ∷ [])

  -- The Key Data of an authenticated frame, unwrapped; `?` on each check.
  unfoldable pub verify_msg3 : FourWay → Eapol → KeyFrame → Ptk → Result Gtk Error
  verify_msg3 h eapol msg3 ptk = do
    verify_frame_mic prim.macs eapol.raw ptk.kck h.descriptor_version msg3.key_mic
    fail_if (not (bytes_eq msg3.key_nonce h.anonce)) nonce_mismatch
    fail_if (not (has_bit msg3.key_info encrypted_bit)) malformed
    key_data ← lift_crypto (prim.unwrap_key_data ptk.kek msg3.key_data)
    advertised ← ok_or (rsn_element key_data) rsn_missing
    fail_if (not (bytes_eq advertised h.config.beacon_rsn_ie)) rsn_mismatch
    gtk_kde key_data

  unfoldable pub on_msg3 : FourWay → Eapol → KeyFrame → Bool → Result (FourWay × List Action) Fault
  on_msg3 h eapol msg3 install = do
    ptk ← attempt (ok_or h.ptk unexpected_message)
    gtk ← attempt (verify_msg3 h eapol msg3 ptk)
    msg4 ← ok_or (msg4_of h msg3 ptk) panicked
    ok (after_msg3 h msg3, send msg4 ∷ disarm_timer ∷ installed install ptk gtk)

  unfoldable pub verify_group : FourWay → Eapol → KeyFrame → Ptk → Result Gtk Error
  verify_group h eapol msg1 ptk = do
    verify_frame_mic prim.macs eapol.raw ptk.kck h.descriptor_version msg1.key_mic
    fail_if (not (has_bit msg1.key_info encrypted_bit)) malformed
    key_data ← lift_crypto (prim.unwrap_key_data ptk.kek msg1.key_data)
    gtk_kde key_data

  unfoldable pub on_group_msg1 : FourWay → Eapol → KeyFrame → Result (FourWay × List Action) Fault
  on_group_msg1 h eapol msg1 = do
    ptk ← attempt (ok_or h.ptk unexpected_message)
    gtk ← attempt (verify_group h eapol msg1 ptk)
    msg2 ← ok_or (group_msg2_of h msg1 ptk) panicked
    ok (record h { rx_counter = some msg1.replay_counter }, send msg2 ∷ new_gtk gtk ∷ [])

  -- By the state, and whether the Pairwise and the MIC bit are set.
  unfoldable pub dispatch :
      FourWay → Eapol → KeyFrame → State → Bool → Bool → Result (FourWay × List Action) Fault
  dispatch h eapol frame state true false = on_msg1 h eapol frame
  dispatch h eapol frame awaiting_msg3 true true = on_msg3 h eapol frame true
  dispatch h eapol frame established true true = on_msg3 h eapol frame false
  dispatch h eapol frame established false true = on_group_msg1 h eapol frame
  dispatch h eapol frame state pairwise mic = err (failed_with unexpected_message)

  -- A frame of the authenticator: its counter, then its kind.
  unfoldable pub on_fresh_frame : FourWay → Eapol → KeyFrame → Result (FourWay × List Action) Fault
  on_fresh_frame h eapol frame = do
    attempt (fail_if (not (is_after h.rx_counter frame.replay_counter)) replayed_counter)
    dispatch h eapol frame h.state (has_bit frame.key_info pairwise_bit)
        (has_bit frame.key_info mic_bit)

  unfoldable pub unless_silent :
      FourWay → Eapol → KeyFrame → Bool → Result (FourWay × List Action) Fault
  unless_silent h eapol frame true = ok (h, [])
  unless_silent h eapol frame false = on_fresh_frame h eapol frame

  unfoldable pub on_key_frame : FourWay → Eapol → Result (FourWay × List Action) Fault
  on_key_frame h eapol = do
    frame ← attempt (Key.parse eapol.body)
    attempt (
        fail_if (not (frame.descriptor_type == descriptor_type_rsn))
          (unsupported_descriptor frame.descriptor_type))
    unless_silent h eapol frame (is_silent frame)

  unfoldable pub by_packet_type :
      FourWay → Eapol → PacketType → Result (FourWay × List Action) Fault
  by_packet_type h eapol key_packet = on_key_frame h eapol
  by_packet_type h eapol _ = ok (h, [])

  unfoldable pub on_frame : FourWay → List ℕ → Result (FourWay × List Action) Fault
  on_frame h bytes =
      attempt (fail_if (is_failed h.state) unexpected_message)
      >> (attempt (Frame.parse bytes) >>= λ eapol. by_packet_type h eapol eapol.packet_type)

unfoldable pub on_timeout : FourWay → Result (FourWay × List Action) Fault
on_timeout h = elim h.last_sent [
  | none ↦ ok (h, [])
  | some frame ↦
      if leb retry_limit h.retries
      then err (failed_with handshake_timeout)
      else ok (record h { retries = h.retries + 1 }, send frame ∷ arm_timer retry_interval_ms ∷ [])
]

-- An error fails the handshake for good. None where a handler panics.
unfoldable pub settle :
    FourWay → Result (FourWay × List Action) Fault → Option (FourWay × Result (List Action) Error)
settle h (ok (h', actions)) = some (h', ok actions)
settle h (err (failed_with e)) = some (record h { state = failed }, err e)
settle h (err panicked) = none

unfoldable pub poll : Primitives → FourWay → Input → Option (FourWay × Result (List Action) Error)
poll prim h (frame_input bytes) = settle h (on_frame prim h bytes)
poll prim h timeout_input = settle h (on_timeout h)
