-- ===== src/Core/Conn/TimedPoll.antt =====
-- The timers of every input (crates/caw-core/src/conn.rs, `poll`).
use caw.Prelude.{ℕ, true, false, List, [], ◌≡◌, refl, ap, ◌∙◌, Option, some}
use caw.Wifi.Nl80211.{
  Event, scan_complete, scan_aborted, connected_event, disconnected_event, external_auth,
  frame_event, authenticate_event, auth_timed_out, ConnectStatus,
}
use caw.Core.Failure.{not_found, assoc_timed_out, authentication_failed, disconnected}
use caw.Core.Auth.{Providers, sae_timeout}
use caw.Eapol.FourWay.{timeout_input}
use caw.Core.Conn.{
  State, scanning, authenticating, associating, handshaking, connected, reconnecting, TimerId,
  scan_timeout, auth_timeout, assoc_timeout, handshake_retry, reconnect_backoff, Input, command,
  wireless, scan_results, eapol_input, lease_input, timer_input, Connection,
}
use caw.Core.Conn.Transition.{fail, is_associated}
use caw.Core.Conn.Join.{auth_body}
use caw.Core.Conn.Keys.{is_keying}
use caw.Core.Conn.Events.{on_scan_results, on_status, drive_body, on_wireless, on_timer, poll}
use caw.Core.Conn.Replay.{IsTimed}
use caw.Core.Conn.Timed.{Tracks, stay-IsTracked, fail-IsTracked, by_test-Tracks}
use caw.Core.Conn.TimedJoin.{drive_sae-Tracks}
use caw.Core.Conn.TimedHandshake.{drive_handshake-Tracks}
use caw.Core.Conn.TimedKeys.{on_eapol-Tracks}
use caw.Core.Conn.TimedAddress.{on_lease-IsTracked}
use caw.Core.Conn.TimedEvents.{
  start_scan-IsTracked, scan_complete-IsTracked, unless_pending-Tracks, on_command-Tracks,
  scan_results-Tracks, on_status-Tracks, drive_body-Tracks,
}

module _ (P : Providers) (draw : P.Draw) (c : Connection P) (timed : IsTimed c.armed c.state) where
  aborted-Tracks :
      (state : State)
      → Tracks P c.armed (elim state [ scanning ↦ some (fail P not_found c) | _ ↦ some (c, []) ])
  aborted-Tracks scanning = fail-IsTracked P not_found c
  aborted-Tracks _ = stay-IsTracked P c timed

  associated-Tracks :
      (state : State) (status : ConnectStatus)
      → Tracks P c.armed (elim state [ associating ↦ on_status P draw c status | _ ↦ some (c, []) ])
  associated-Tracks associating status = on_status-Tracks P draw c status timed
  associated-Tracks _ status = stay-IsTracked P c timed

  withdrawn-Tracks :
      (state : State)
      → Tracks P c.armed
          (elim state [ authenticating ↦ some (fail P authentication_failed c) | _ ↦ some (c, []) ])
  withdrawn-Tracks authenticating = fail-IsTracked P authentication_failed c
  withdrawn-Tracks _ = stay-IsTracked P c timed

  answered-Tracks :
      (state : State) (body : Option (List ℕ))
      → c.state ≡ state
      → Tracks P c.armed
          (elim state [ authenticating ↦ drive_body P draw c body | _ ↦ some (c, []) ])
  answered-Tracks authenticating body here = drive_body-Tracks P draw c body timed here
  answered-Tracks _ body here = stay-IsTracked P c timed

  on_wireless-Tracks : (event : Event) → Tracks P c.armed (on_wireless P draw event c)
  unfolding on_wireless
  on_wireless-Tracks (scan_complete wiphy ifindex) = scan_complete-IsTracked P c c.state timed
  on_wireless-Tracks (scan_aborted wiphy ifindex) = aborted-Tracks c.state
  on_wireless-Tracks (connected_event bssid status) = associated-Tracks c.state status
  on_wireless-Tracks (disconnected_event reason by_ap) =
      by_test-Tracks P c.armed (is_associated c.state) _ _
        (λ _. fail-IsTracked P (disconnected reason by_ap) c) (λ _. stay-IsTracked P c timed)
  on_wireless-Tracks (external_auth bssid ssid true) = withdrawn-Tracks c.state
  on_wireless-Tracks (external_auth bssid ssid false) = stay-IsTracked P c timed
  on_wireless-Tracks (authenticate_event frame) = answered-Tracks c.state (auth_body P c frame) refl
  on_wireless-Tracks auth_timed_out = stay-IsTracked P c timed
  on_wireless-Tracks (frame_event frame) = stay-IsTracked P c timed

  keying : (state : State) → c.state ≡ state → is_keying state ≡ true → is_keying c.state ≡ true
  keying state here e = ap is_keying here ∙ e

  on_timer-Tracks :
      (id : TimerId) (state : State)
      → c.state ≡ state
      → Tracks P c.armed (on_timer P draw id c state)
  unfolding on_timer is_keying
  on_timer-Tracks scan_timeout scanning here = unless_pending-Tracks P c c.pending timed
  on_timer-Tracks assoc_timeout associating here = fail-IsTracked P assoc_timed_out c
  on_timer-Tracks auth_timeout authenticating here =
      drive_sae-Tracks P draw sae_timeout c timed here
  on_timer-Tracks handshake_retry handshaking here =
      drive_handshake-Tracks P timeout_input c timed (keying handshaking here refl)
  on_timer-Tracks handshake_retry connected here =
      drive_handshake-Tracks P timeout_input c timed (keying connected here refl)
  on_timer-Tracks reconnect_backoff reconnecting here = start_scan-IsTracked P c
  on_timer-Tracks id state here = stay-IsTracked P c timed

  -- One input.
  pub poll-Tracks : (input : Input) → Tracks P c.armed (poll P draw input c)
  unfolding poll on_scan_results
  poll-Tracks (command said) = on_command-Tracks P draw said c timed
  poll-Tracks (wireless event) = on_wireless-Tracks event
  poll-Tracks (scan_results scan) = scan_results-Tracks P draw scan c c.state timed
  poll-Tracks (eapol_input frame) = on_eapol-Tracks P draw frame c timed
  poll-Tracks (lease_input event) = on_lease-IsTracked P event c timed
  poll-Tracks (timer_input id) = on_timer-Tracks id c.state refl
