-- ===== src/Core/Conn/Events.antt =====
-- What the connection does with each input (crates/caw-core/src/conn.rs, `poll`, `on_command`,
-- `on_scan_results`, `select`, `consider_roam`, `on_wireless`, `on_timer`).
use caw.Prelude.{ℕ, Bool, true, false, List, [], ◌∷◌, ◌++◌, if◌then◌else◌, Option, none, some, find}
use caw.Prelude.Words.{bytes_eq}
use caw.Prelude.Ints.{ℤ}
use caw.Wifi.Nl80211.{
  Bss, Event, scan_complete, scan_aborted, connected_event, disconnected_event, external_auth,
  frame_event, authenticate_event, auth_timed_out, ConnectStatus, success, refused_status,
  timed_out,
}
use caw.Core.Policy.Select.{best_bss, best_known, roam_target}
use caw.Core.Profile.{Profile}
use caw.Core.Failure.{
  not_found, no_known_network, refused, assoc_timed_out, authentication_failed, disconnected,
}
use caw.Core.Auth.{Providers, sae_frame, sae_timeout}
use caw.Eapol.FourWay.{timeout_input}
use caw.Core.Conn.{
  State, idle, scanning, authenticating, associating, handshaking, connected, reconnecting, TimerId,
  scan_timeout, auth_timeout, assoc_timeout, handshake_retry, reconnect_backoff, scan_timeout_ms,
  reason_leaving, Command, connect, autoconnect_command, secret_command, disconnect_command, Input,
  command, wireless, scan_results, eapol_input, lease_input, timer_input, Action, trigger_scan,
  fetch_scan_results, disconnect_action, Target, Session, Connection,
}
use caw.Core.Conn.Transition.{Turn, then_do, emit, arm, enter, go_idle, fail, is_associated}
use caw.Core.Conn.Join.{drive_sae, auth_body}
use caw.Core.Conn.Plan.{plan}
use caw.Core.Conn.Handshake.{drive_handshake}
use caw.Core.Conn.Keys.{on_associated, on_eapol}
use caw.Core.Conn.Address.{on_lease}

abbrev autoconnects : Option Profile → Bool
autoconnects none = false
autoconnects (some p) = p.autoconnect

abbrev is_missing : Option Profile → Bool
is_missing none = true
is_missing (some p) = false

unfoldable pub target_for : List Profile → List ℕ → Target
target_for profiles ssid =
    let profile = find (λ p. bytes_eq p.ssid ssid) profiles in
    record { ssid = ssid; secret = none; retry = autoconnects profile; save = is_missing profile }

unfoldable pub bss_named : List ℕ → List Bss → Option Bss
bss_named bssid scan = find (λ b. bytes_eq b.bssid bssid) scan

module _ (P : Providers) where
  unfoldable pub start_scan : Connection P → Turn P
  start_scan c =
      then_do P (then_do P (enter P scanning c) (λ c'. emit P (trigger_scan c'.device.ifindex) c'))
        (arm P scan_timeout scan_timeout_ms)

  unfoldable pub towards : Option Target → Connection P → Connection P
  towards target c = record c { target = target; session = none; pending = none; attempts = 0 }

  abbrev pub leaving : State → List Action
  leaving idle = []
  leaving _ = disconnect_action reason_leaving ∷ []

  unfoldable pub on_connect : List ℕ → Connection P → Turn P
  on_connect ssid c =
      let (next, out) = start_scan (towards (some (target_for c.profiles ssid)) c) in
      (next, leaving c.state ++ out)

  unfoldable pub on_autoconnect : Connection P → Turn P
  on_autoconnect c = elim c.state [ idle ↦ start_scan (towards none c) | _ ↦ (c, []) ]

  abbrev pub resume : P.Draw → Connection P → Option Bss → Option (Turn P)
  resume draw c none = some (c, [])
  resume draw c (some bss) = plan P draw bss false (record c { pending = none })

  unfoldable pub on_secret : P.Draw → List ℕ → Connection P → Option (Turn P)
  on_secret draw value c = elim c.target [
    | none ↦ some (c, [])
    | some target ↦
        let told : Target = record target { secret = some value } in
        resume draw (record c { target = some told }) c.pending
  ]

  unfoldable pub on_disconnect : Connection P → Turn P
  on_disconnect c = then_do P (emit P (disconnect_action reason_leaving) c) (go_idle P)

  unfoldable pub on_command : P.Draw → Command → Connection P → Option (Turn P)
  on_command draw (connect ssid) c = some (on_connect ssid c)
  on_command draw autoconnect_command c = some (on_autoconnect c)
  on_command draw (secret_command value) c = on_secret draw value c
  on_command draw disconnect_command c = some (on_disconnect c)

  -- None where the scan has no BSS of that id.
  unfoldable pub plan_named : P.Draw → List ℕ → Bool → List Bss → Connection P → Option (Turn P)
  plan_named draw bssid roaming scan c = elim (bss_named bssid scan) [
    | none ↦ none
    | some bss ↦ plan P draw bss roaming c
  ]

  abbrev discovered : List ℕ → Target
  discovered ssid = record { ssid = ssid; secret = none; retry = true; save = false }

  unfoldable pub select_target : P.Draw → List Bss → Connection P → Option Bss → Option (Turn P)
  select_target draw scan c none = some (fail P not_found c)
  select_target draw scan c (some bss) = plan_named draw bss.bssid false scan c

  unfoldable pub select_known :
      P.Draw → List Bss → Connection P → Option (Bss × Profile) → Option (Turn P)
  select_known draw scan c none = some (fail P no_known_network c)
  select_known draw scan c (some (bss, profile)) =
      plan_named draw bss.bssid false scan (record c { target = some (discovered profile.ssid) })

  unfoldable pub select : P.Draw → List Bss → Connection P → Option (Turn P)
  select draw scan c = elim c.target [
    | some target ↦ select_target draw scan c (best_bss scan target.ssid)
    | none ↦ select_known draw scan c (best_known scan c.profiles)
  ]

  abbrev signal_or : Option Bss → ℤ → ℤ
  signal_or none before = before
  signal_or (some bss) before = bss.signal_dbm

  unfoldable pub measured : Session P → ℤ → Session P
  measured session signal =
      let choice = session.choice in
      record session { choice = record choice { signal_dbm = signal } }

  unfoldable pub roam_to :
      P.Draw → List Bss → Connection P → Session P → ℤ → Option Bss → Option (Turn P)
  roam_to draw scan c session signal none =
      some (record c { session = some (measured session signal) }, [])
  roam_to draw scan c session signal (some better) = plan_named draw better.bssid true scan c

  unfoldable pub roam_with : P.Draw → List Bss → Connection P → Session P → Target → Option (Turn P)
  roam_with draw scan c session target =
      let current = session.choice.bssid in
      let signal = signal_or (bss_named current scan) session.choice.signal_dbm in
      roam_to draw scan c session signal (roam_target scan target.ssid current signal)

  unfoldable pub consider_roam : P.Draw → List Bss → Connection P → Option (Turn P)
  consider_roam draw scan c = elim c.session [
    | none ↦ some (c, [])
    | some session ↦ elim c.target [
      | none ↦ some (c, [])
      | some target ↦ roam_with draw scan c session target
    ]
  ]

  unfoldable pub on_scan_results : P.Draw → List Bss → Connection P → Option (Turn P)
  on_scan_results draw scan c = elim c.state [
    | scanning ↦ select draw scan c
    | connected ↦ consider_roam draw scan c
    | _ ↦ some (c, [])
  ]

  unfoldable pub on_scan_complete : Connection P → State → Turn P
  on_scan_complete c scanning = emit P (fetch_scan_results c.device.ifindex) c
  on_scan_complete c connected = emit P (fetch_scan_results c.device.ifindex) c
  on_scan_complete c _ = (c, [])

  unfoldable pub on_status : P.Draw → Connection P → ConnectStatus → Option (Turn P)
  on_status draw c success = on_associated P draw c
  on_status draw c (refused_status code) = some (fail P (refused code) c)
  on_status draw c timed_out = some (fail P assoc_timed_out c)

  abbrev pub drive_body : P.Draw → Connection P → Option (List ℕ) → Option (Turn P)
  drive_body draw c none = some (c, [])
  drive_body draw c (some body) = drive_sae P draw (sae_frame body) c

  unfoldable pub on_wireless : P.Draw → Event → Connection P → Option (Turn P)
  on_wireless draw (scan_complete wiphy ifindex) c = some (on_scan_complete c c.state)
  on_wireless draw (scan_aborted wiphy ifindex) c = elim c.state [
    | scanning ↦ some (fail P not_found c)
    | _ ↦ some (c, [])
  ]
  on_wireless draw (connected_event bssid status) c = elim c.state [
    | associating ↦ on_status draw c status
    | _ ↦ some (c, [])
  ]
  on_wireless draw (disconnected_event reason by_ap) c =
      if is_associated c.state then some (fail P (disconnected reason by_ap) c) else some (c, [])
  on_wireless draw (external_auth bssid ssid true) c = elim c.state [
    | authenticating ↦ some (fail P authentication_failed c)
    | _ ↦ some (c, [])
  ]
  on_wireless draw (external_auth bssid ssid false) c = some (c, [])
  on_wireless draw (authenticate_event frame) c = elim c.state [
    | authenticating ↦ drive_body draw c (auth_body P c frame)
    | _ ↦ some (c, [])
  ]
  on_wireless draw auth_timed_out c = some (c, [])
  on_wireless draw (frame_event frame) c = some (c, [])

  abbrev pub unless_pending : Connection P → Option Bss → Option (Turn P)
  unless_pending c none = some (fail P not_found c)
  unless_pending c (some bss) = some (c, [])

  unfoldable pub on_timer : P.Draw → TimerId → Connection P → State → Option (Turn P)
  on_timer draw scan_timeout c scanning = unless_pending c c.pending
  on_timer draw assoc_timeout c associating = some (fail P assoc_timed_out c)
  on_timer draw auth_timeout c authenticating = drive_sae P draw sae_timeout c
  on_timer draw handshake_retry c handshaking = drive_handshake P timeout_input c
  on_timer draw handshake_retry c connected = drive_handshake P timeout_input c
  on_timer draw reconnect_backoff c reconnecting = some (start_scan c)
  on_timer draw id c state = some (c, [])

  unfoldable pub poll : P.Draw → Input → Connection P → Option (Turn P)
  poll draw (command c') c = on_command draw c' c
  poll draw (wireless event) c = on_wireless draw event c
  poll draw (scan_results scan) c = on_scan_results draw scan c
  poll draw (eapol_input frame) c = on_eapol P draw frame c
  poll draw (lease_input event) c = some (on_lease P event c)
  poll draw (timer_input id) c = on_timer draw id c c.state
