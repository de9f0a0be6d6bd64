-- ===== src/Core/Conn/TimedEvents.antt =====
-- The timers of commands and scans (crates/caw-core/src/conn.rs, `on_command` to `select`,
-- `consider_roam`).
use caw.Prelude.{ℕ, Bool, true, false, List, [], ◌≡◌, refl, Option, none, some}
use caw.Prelude.Ints.{ℤ}
use caw.Wifi.Nl80211.{Bss, ConnectStatus, success, refused_status, timed_out}
use caw.Core.Profile.{Profile}
use caw.Core.Failure.{not_found, no_known_network, refused, assoc_timed_out}
use caw.Core.Auth.{Providers, sae_frame}
use caw.Core.Conn.{
  State, idle, scanning, authenticating, connected, TimerId, scan_timeout, scan_timeout_ms,
  reason_leaving, Command, connect, autoconnect_command, secret_command, disconnect_command,
  trigger_scan, fetch_scan_results, disconnect_action, Session, Connection, timer_of,
}
use caw.Core.Conn.Transition.{Turn, then_do, emit, arm, enter, go_idle}
use caw.Core.Conn.Events.{
  start_scan, towards, leaving, on_connect, target_for, on_autoconnect, on_secret, resume,
  on_disconnect, on_command, plan_named, bss_named, select_target, select_known, select, roam_to,
  roam_with, measured, consider_roam, on_scan_complete, on_status, drive_body, unless_pending,
}
use caw.Core.Conn.Replay.{IsTimed, replay, replay-cons, plain_step}
use caw.Core.Conn.Timed.{
  IsTracked, Tracks, then_do-IsTracked, stay-IsTracked, emit-IsTracked, arm-IsTracked,
  enter-IsTracked, fail-IsTracked, go_idle-IsTracked, lead-IsTracked, by_option-Tracks,
}
use caw.Core.Conn.TimedJoin.{plan-Tracks, drive_sae-Tracks}
use caw.Core.Conn.TimedKeys.{on_associated-Tracks}

module _ (P : Providers) where
  pub start_scan-IsTracked : (c : Connection P) → IsTracked P c.armed (start_scan P c)
  unfolding start_scan enter timer_of
  start_scan-IsTracked c =
      let entered : IsTracked P c.armed (enter P scanning c) = enter-IsTracked P scanning c in
      let ask : Connection P → Turn P = λ c'. emit P (trigger_scan c'.device.ifindex) c' in
      let told : IsTracked P c.armed (then_do P (enter P scanning c) ask) =
        then_do-IsTracked P c.armed (enter P scanning c) ask entered
          (emit-IsTracked P _ (enter P scanning c).0 refl entered.1) in
      then_do-IsTracked P c.armed (then_do P (enter P scanning c) ask)
        (arm P scan_timeout scan_timeout_ms) told
        (arm-IsTracked P scan_timeout scan_timeout_ms (enter P scanning c).0 refl told.1)

  leaving_led :
      (armed : Option TimerId) (state : State) → replay armed (leaving P state) ≡ some armed
  unfolding replay
  leaving_led armed idle = refl
  leaving_led armed _ =
      replay-cons armed armed _ [] (plain_step armed (disconnect_action reason_leaving) refl)

  on_connect-IsTracked :
      (ssid : List ℕ) (c : Connection P) → IsTracked P c.armed (on_connect P ssid c)
  unfolding on_connect towards
  on_connect-IsTracked ssid c =
      let aimed : Connection P = towards P (some (target_for c.profiles ssid)) c in
      lead-IsTracked P c.armed (leaving P c.state) (start_scan P aimed)
        (leaving_led c.armed c.state) (start_scan-IsTracked aimed)

  autoconnect-IsTracked :
      (c : Connection P) (state : State)
      → IsTimed c.armed c.state
      → IsTracked P c.armed (elim state [ idle ↦ start_scan P (towards P none c) | _ ↦ (c, []) ])
  unfolding towards
  autoconnect-IsTracked c idle timed = start_scan-IsTracked (towards P none c)
  autoconnect-IsTracked c _ timed = stay-IsTracked P c timed

  on_disconnect-IsTracked :
      (c : Connection P) → IsTimed c.armed c.state → IsTracked P c.armed (on_disconnect P c)
  unfolding on_disconnect
  on_disconnect-IsTracked c timed =
      then_do-IsTracked P c.armed (emit P (disconnect_action reason_leaving) c) (go_idle P)
        (emit-IsTracked P (disconnect_action reason_leaving) c refl timed) (go_idle-IsTracked P c)

  pub scan_complete-IsTracked :
      (c : Connection P) (state : State)
      → IsTimed c.armed c.state
      → IsTracked P c.armed (on_scan_complete P c state)
  unfolding on_scan_complete
  scan_complete-IsTracked c scanning timed = emit-IsTracked P (fetch_scan_results _) c refl timed
  scan_complete-IsTracked c connected timed = emit-IsTracked P (fetch_scan_results _) c refl timed
  scan_complete-IsTracked c _ timed = stay-IsTracked P c timed

  pub unless_pending-Tracks :
      (c : Connection P) (pending : Option Bss)
      → IsTimed c.armed c.state
      → Tracks P c.armed (unless_pending P c pending)
  unless_pending-Tracks c none timed = fail-IsTracked P not_found c
  unless_pending-Tracks c (some bss) timed = stay-IsTracked P c timed

  module _ (draw : P.Draw) where
    resume-Tracks :
        (c : Connection P) (pending : Option Bss)
        → IsTimed c.armed c.state
        → Tracks P c.armed (resume P draw c pending)
    resume-Tracks c none timed = stay-IsTracked P c timed
    resume-Tracks c (some bss) timed = plan-Tracks P draw bss false _ timed

    on_secret-Tracks :
        (value : List ℕ) (c : Connection P)
        → IsTimed c.armed c.state
        → Tracks P c.armed (on_secret P draw value c)
    unfolding on_secret
    on_secret-Tracks value c timed =
        by_option-Tracks P c.armed c.target _ _ (stay-IsTracked P c timed)
          (λ target. resume-Tracks _ c.pending timed)

    pub on_command-Tracks :
        (said : Command) (c : Connection P)
        → IsTimed c.armed c.state
        → Tracks P c.armed (on_command P draw said c)
    unfolding on_command on_autoconnect
    on_command-Tracks (connect ssid) c timed = on_connect-IsTracked ssid c
    on_command-Tracks autoconnect_command c timed = autoconnect-IsTracked c c.state timed
    on_command-Tracks (secret_command value) c timed = on_secret-Tracks value c timed
    on_command-Tracks disconnect_command c timed = on_disconnect-IsTracked c timed

    plan_named-Tracks :
        (bssid : List ℕ) (roaming : Bool) (scan : List Bss) (c : Connection P)
        → IsTimed c.armed c.state
        → Tracks P c.armed (plan_named P draw bssid roaming scan c)
    unfolding plan_named
    plan_named-Tracks bssid roaming scan c timed =
        by_option-Tracks P c.armed (bss_named bssid scan) _ _ tt
          (λ bss. plan-Tracks P draw bss roaming c timed)

    select_target-Tracks :
        (scan : List Bss) (c : Connection P) (best : Option Bss)
        → IsTimed c.armed c.state
        → Tracks P c.armed (select_target P draw scan c best)
    unfolding select_target
    select_target-Tracks scan c none timed = fail-IsTracked P not_found c
    select_target-Tracks scan c (some bss) timed = plan_named-Tracks bss.bssid false scan c timed

    select_known-Tracks :
        (scan : List Bss) (c : Connection P) (best : Option (Bss × Profile))
        → IsTimed c.armed c.state
        → Tracks P c.armed (select_known P draw scan c best)
    unfolding select_known
    select_known-Tracks scan c none timed = fail-IsTracked P no_known_network c
    select_known-Tracks scan c (some (bss, profile)) timed =
        plan_named-Tracks bss.bssid false scan _ timed

    select-Tracks :
        (scan : List Bss) (c : Connection P)
        → IsTimed c.armed c.state
        → Tracks P c.armed (select P draw scan c)
    unfolding select
    select-Tracks scan c timed =
        by_option-Tracks P c.armed c.target _ _ (select_known-Tracks scan c _ timed)
          (λ target. select_target-Tracks scan c _ timed)

    roam_to-Tracks :
        (scan : List Bss) (c : Connection P) (session : Session P) (signal : ℤ)
        (better : Option Bss)
        → IsTimed c.armed c.state
        → Tracks P c.armed (roam_to P draw scan c session signal better)
    unfolding roam_to
    roam_to-Tracks scan c session signal none timed =
        stay-IsTracked P (record c { session = some (measured P session signal) }) timed
    roam_to-Tracks scan c session signal (some better) timed =
        plan_named-Tracks better.bssid true scan c timed

    consider_roam-Tracks :
        (scan : List Bss) (c : Connection P)
        → IsTimed c.armed c.state
        → Tracks P c.armed (consider_roam P draw scan c)
    unfolding consider_roam roam_with
    consider_roam-Tracks scan c timed =
        by_option-Tracks P c.armed c.session _ _ (stay-IsTracked P c timed) (λ session.
          by_option-Tracks P c.armed c.target _ _ (stay-IsTracked P c timed)
            (λ target. roam_to-Tracks scan c session _ _ timed))

    pub scan_results-Tracks :
        (scan : List Bss) (c : Connection P) (state : State)
        → IsTimed c.armed c.state
        → Tracks P c.armed (elim state [
          | scanning ↦ select P draw scan c
          | connected ↦ consider_roam P draw scan c
          | _ ↦ some (c, [])
        ])
    scan_results-Tracks scan c scanning timed = select-Tracks scan c timed
    scan_results-Tracks scan c connected timed = consider_roam-Tracks scan c timed
    scan_results-Tracks scan c _ timed = stay-IsTracked P c timed

    pub on_status-Tracks :
        (c : Connection P) (status : ConnectStatus)
        → IsTimed c.armed c.state
        → Tracks P c.armed (on_status P draw c status)
    unfolding on_status
    on_status-Tracks c success timed = on_associated-Tracks P draw c timed
    on_status-Tracks c (refused_status code) timed = fail-IsTracked P (refused code) c
    on_status-Tracks c timed_out timed = fail-IsTracked P assoc_timed_out c

    pub drive_body-Tracks :
        (c : Connection P) (body : Option (List ℕ))
        → IsTimed c.armed c.state
        → c.state ≡ authenticating
        → Tracks P c.armed (drive_body P draw c body)
    drive_body-Tracks c none timed here = stay-IsTracked P c timed
    drive_body-Tracks c (some body) timed here =
        drive_sae-Tracks P draw (sae_frame body) c timed here
