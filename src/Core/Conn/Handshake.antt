-- ===== src/Core/Conn/Handshake.antt =====
-- Running the 4-way handshake, and installing its keys (crates/caw-core/src/conn.rs,
-- `start_handshake` to `group_suite`, `configured`).
use caw.Prelude.{
  ℕ, Bool, true, false, ◌||◌, List, [], ◌∷◌, if◌then◌else◌, Option, none, some, Result, ok, err,
}
use caw.Wifi.Suites.{Cipher}
use caw.Wifi.Nl80211.{cipher_suite, suite_ccmp}
use caw.Eap.Error.{Error}
use caw.Eapol.Key.Data.{Gtk}
use caw.Eapol.FourWay
use caw.Eapol.FourWay.{FourWay, Config, with_snonce, frame_input, timeout_input}
use caw.Core.Failure.{from_eapol}
use caw.Core.Auth.{Providers}
use caw.Core.Conn.{
  handshaking, configuring, connected, handshake_retry, send_eapol, install_keys, start_dhcp,
  KeyInstall, Negotiated, Session, Connection,
}
use caw.Core.Conn.Transition.{Turn, then_do, then_try, emit, arm, disarm, enter, fail}

abbrev or_ccmp : Option ℕ → ℕ
or_ccmp none = suite_ccmp
or_ccmp (some n) = n

-- The kernel's number for a cipher, or CCMP's.
unfoldable pub suite_or_ccmp : Cipher → ℕ
suite_or_ccmp cipher = or_ccmp (cipher_suite cipher)

abbrev group_of : Option Negotiated → ℕ
group_of none = suite_ccmp
group_of (some rsn) = suite_or_ccmp rsn.group

unfoldable pub is_complete : FourWay.Action → Bool
is_complete (FourWay.complete keys) = true
is_complete _ = false

unfoldable pub any_complete : List FourWay.Action → Bool
any_complete [] = false
any_complete (x ∷ xs) = is_complete x || any_complete xs

module _ (P : Providers) where
  abbrev pub is_roaming : Option (Session P) → Bool
  is_roaming none = false
  is_roaming (some session) = session.choice.roaming

  abbrev pub reset_attempts : Connection P → Turn P
  reset_attempts c = (record c { attempts = 0 }, [])

  unfoldable pub configured : Connection P → Turn P
  configured c =
      if is_roaming c.session
      then then_do P (enter P connected c) reset_attempts
      else then_do P (enter P configuring c) (emit P start_dhcp)

  unfoldable pub group_suite : Connection P → ℕ
  group_suite c = elim c.session [ none ↦ suite_ccmp | some session ↦ group_of session.choice.rsn ]

  unfoldable pub install_for : Connection P → FourWay.Keys → Session P → Negotiated → KeyInstall
  install_for c keys session rsn = record {
    pairwise = some (record {
      peer = session.choice.bssid;
      cipher = suite_or_ccmp rsn.pairwise;
      ptk = keys.ptk;
    });
    group = record { cipher = group_suite c; gtk = keys.gtk };
  }

  -- None without a session, or without an RSN.
  unfoldable pub pairwise_install : Connection P → FourWay.Keys → Option KeyInstall
  pairwise_install c keys = elim c.session [
    | none ↦ none
    | some session ↦ elim session.choice.rsn [
      | none ↦ none
      | some rsn ↦ some (install_for c keys session rsn)
    ]
  ]

  unfoldable pub group_install : Connection P → Gtk → KeyInstall
  group_install c gtk = record {
    pairwise = none;
    group = record { cipher = group_suite c; gtk = gtk };
  }

  abbrev pub installing : Connection P → Option KeyInstall → Option (Turn P)
  installing c none = none
  installing c (some install) = some (c, install_keys install ∷ [])

  unfoldable pub on_handshake_action : FourWay.Action → Connection P → Option (Turn P)
  on_handshake_action (FourWay.send frame) c = some (emit P (send_eapol frame) c)
  on_handshake_action (FourWay.arm_timer millis) c = some (arm P handshake_retry millis c)
  on_handshake_action FourWay.disarm_timer c = some (disarm P c)
  on_handshake_action (FourWay.complete keys) c = installing c (pairwise_install c keys)
  on_handshake_action (FourWay.new_gtk gtk) c = some (emit P (install_keys (group_install c gtk)) c)

  abbrev pub and_then : Option (Turn P) → (Connection P → Option (Turn P)) → Option (Turn P)
  and_then none f = none
  and_then (some turn) f = then_try P turn f

  unfoldable pub each_action : List FourWay.Action → Connection P → Option (Turn P)
  each_action [] c = some (c, [])
  each_action (x ∷ xs) c = and_then (on_handshake_action x c) (each_action xs)

  abbrev pub when : Bool → (Connection P → Turn P) → Connection P → Option (Turn P)
  when true f c = some (f c)
  when false f c = some (c, [])

  unfoldable pub on_handshake_actions :
      Result (List FourWay.Action) Error → Connection P → Option (Turn P)
  on_handshake_actions (err e) c = some (fail P (from_eapol e) c)
  on_handshake_actions (ok actions) c =
      and_then (each_action actions c) (when (any_complete actions) configured)

  unfoldable pub after_poll :
      Connection P
      → Session P
      → Option (FourWay × Result (List FourWay.Action) Error)
      → Option (Turn P)
  after_poll c session none = none
  after_poll c session (some (handshake, result)) =
      let polled : Session P = record session { handshake = some handshake } in
      on_handshake_actions result (record c { session = some polled })

  unfoldable pub poll_handshake :
      FourWay.Input → Connection P → Session P → Option FourWay → Option (Turn P)
  poll_handshake input c session none = some (c, [])
  poll_handshake input c session (some handshake) =
      after_poll c session (FourWay.poll P.primitives handshake input)

  unfoldable pub drive_handshake : FourWay.Input → Connection P → Option (Turn P)
  drive_handshake input c = elim c.session [
    | none ↦ some (c, [])
    | some session ↦ poll_handshake input c session session.handshake
  ]

  unfoldable pub config_of : Connection P → Session P → Negotiated → Config
  config_of c session rsn = record {
    akm = rsn.akm;
    own_mac = c.device.mac;
    bssid = session.choice.bssid;
    assoc_rsn_ie = session.assoc_ie;
    beacon_rsn_ie = rsn.beacon_ie;
  }

  -- `FourWay::new`
  unfoldable pub open_handshake :
      List ℕ → Connection P → Session P → Negotiated → Result (List ℕ) Error → Turn P
  open_handshake pmk c session rsn (err e) = fail P (from_eapol e) c
  open_handshake pmk c session rsn (ok nonce) =
      let handshake = with_snonce pmk (config_of c session rsn) nonce in
      let opened : Session P = record session { handshake = some handshake } in
      enter P handshaking (record c { session = some opened })

  -- None without a session, or without an RSN.
  unfoldable pub start_handshake : P.Draw → List ℕ → Connection P → Option (Turn P)
  start_handshake draw pmk c = elim c.session [
    | none ↦ none
    | some session ↦ elim session.choice.rsn [
      | none ↦ none
      | some rsn ↦ some (open_handshake pmk c session rsn (P.random_nonce draw))
    ]
  ]
