-- ===== src/Core/Conn/TimedHandshake.antt =====
-- The timers of the handshake (crates/caw-core/src/conn.rs, `start_handshake` to `group_suite`,
-- `configured`).
use caw.Prelude.{
  ℕ, Bool, true, false, List, [], ◌∷◌, ◌≡◌, refl, ap, if◌then◌else◌, arith, Option, none, some,
  Result, ok, err, ◌∙◌,
}
use caw.Eap.Error.{Error}
use caw.Eapol.FourWay
use caw.Eapol.FourWay.{FourWay, frame_input}
use caw.Core.Failure.{from_eapol}
use caw.Core.Auth.{Providers}
use caw.Core.Conn.{
  State, handshaking, configuring, connected, handshake_retry, send_eapol, install_keys, start_dhcp,
  KeyInstall, Negotiated, Session, Connection, timer_of,
}
use caw.Core.Conn.Transition.{Turn, with_more, then_do, emit, arm, disarm, enter}
use caw.Core.Conn.Handshake.{
  configured, is_roaming, reset_attempts, group_install, pairwise_install, on_handshake_action,
  and_then, each_action, when, any_complete, installing, on_handshake_actions, after_poll,
  poll_handshake, drive_handshake, open_handshake,
}
use caw.Core.Conn.Keys.{is_keying}
use caw.Core.Conn.Replay.{IsTimed, replay-append}
use caw.Core.Conn.Timed.{
  IsTracked, Tracks, then_do-IsTracked, then_try-Tracks, stay-IsTracked, emit-IsTracked,
  arm-IsTracked, disarm-IsTracked, enter-IsTracked, fail-IsTracked, by_option-Tracks,
}

keying_timer : (state : State) → is_keying state ≡ true → timer_of state ≡ some handshake_retry
unfolding is_keying timer_of
keying_timer state e = ground arith

module _ (P : Providers) where
  pub configured-IsTracked : (c : Connection P) → IsTracked P c.armed (configured P c)
  unfolding configured
  configured-IsTracked c = by_roaming (is_roaming P c.session)
    where
      into_connected : IsTracked P c.armed (then_do P (enter P connected c) (reset_attempts P))
      into_connected =
          let entered : IsTracked P c.armed (enter P connected c) = enter-IsTracked P connected c in
          then_do-IsTracked P c.armed (enter P connected c) (reset_attempts P) entered
            (stay-IsTracked P (reset_attempts P (enter P connected c).0).0 entered.1)

      into_configuring : IsTracked P c.armed (then_do P (enter P configuring c) (emit P start_dhcp))
      into_configuring =
          let entered : IsTracked P c.armed (enter P configuring c) =
            enter-IsTracked P configuring c in
          then_do-IsTracked P c.armed (enter P configuring c) (emit P start_dhcp) entered
            (emit-IsTracked P start_dhcp (enter P configuring c).0 refl entered.1)

      by_roaming :
          (roaming : Bool)
          → IsTracked P c.armed (
              if roaming
              then then_do P (enter P connected c) (reset_attempts P)
              else then_do P (enter P configuring c) (emit P start_dhcp))
      by_roaming true = into_connected
      by_roaming false = into_configuring

  -- Tracked, and in the state that it was in.
  abbrev StaysTracked : Connection P → Option (Turn P) → Type 0
  StaysTracked c none = Unit {0}
  StaysTracked c (some t) = IsTracked P c.armed t × (t.0.state ≡ c.state)

  module _ (c : Connection P) (timed : IsTimed c.armed c.state)
      (here : is_keying c.state ≡ true) where
    installing-StaysTracked :
        (install : Option KeyInstall) → StaysTracked c (installing P c install)
    installing-StaysTracked none = tt
    installing-StaysTracked (some install) =
        (emit-IsTracked P (install_keys install) c refl timed, refl)

    on_handshake_action-StaysTracked :
        (action : FourWay.Action) → StaysTracked c (on_handshake_action P action c)
    unfolding on_handshake_action arm disarm
    on_handshake_action-StaysTracked (FourWay.send frame) =
        (emit-IsTracked P (send_eapol frame) c refl timed, refl)
    on_handshake_action-StaysTracked (FourWay.arm_timer millis) =
        (arm-IsTracked P handshake_retry millis c (keying_timer c.state here) timed, refl)
    on_handshake_action-StaysTracked FourWay.disarm_timer = (disarm-IsTracked P c, refl)
    on_handshake_action-StaysTracked (FourWay.complete keys) =
        installing-StaysTracked (pairwise_install P c keys)
    on_handshake_action-StaysTracked (FourWay.new_gtk gtk) =
        (emit-IsTracked P (install_keys (group_install P c gtk)) c refl timed, refl)

  then_StaysTracked :
      (c : Connection P) (first : Option (Turn P)) (f : Connection P → Option (Turn P))
      → StaysTracked c first
      → ((next : Connection P)
          → IsTimed next.armed next.state
          → next.state ≡ c.state
          → StaysTracked next (f next))
      → StaysTracked c (and_then P first f)
  then_StaysTracked c none f stays more = tt
  then_StaysTracked c (some (next, out)) f stays more = chain (f next) (more next stays.0.1 stays.1)
    where
      chain : (o : Option (Turn P)) → StaysTracked next o → StaysTracked c (with_more P out o)
      chain none later = tt
      chain (some (last, rest)) later = (
        (replay-append c.armed next.armed out rest stays.0.0 ∙ later.0.0, later.0.1),
        later.1 ∙ stays.1,
      )

  each_action-StaysTracked :
      (actions : List FourWay.Action) (c : Connection P)
      → IsTimed c.armed c.state
      → is_keying c.state ≡ true
      → StaysTracked c (each_action P actions c)
  unfolding each_action
  each_action-StaysTracked [] c timed here = (stay-IsTracked P c timed, refl)
  each_action-StaysTracked (x ∷ xs) c timed here =
      then_StaysTracked c (on_handshake_action P x c) (each_action P xs)
        (on_handshake_action-StaysTracked c timed here x)
        (λ next timed' same. each_action-StaysTracked xs next timed' (ap is_keying same ∙ here))

  -- What follows the handshake's actions.
  then_Tracks :
      (c : Connection P) (first : Option (Turn P)) (f : Connection P → Option (Turn P))
      → StaysTracked c first
      → ((next : Connection P) → IsTimed next.armed next.state → Tracks P next.armed (f next))
      → Tracks P c.armed (and_then P first f)
  then_Tracks c none f stays more = tt
  then_Tracks c (some (next, out)) f stays more =
      then_try-Tracks P c.armed (next, out) f stays.0 (more next stays.0.1)

  when-Tracks :
      (b : Bool) (c : Connection P)
      → IsTimed c.armed c.state
      → Tracks P c.armed (when P b (configured P) c)
  when-Tracks true c timed = configured-IsTracked c
  when-Tracks false c timed = stay-IsTracked P c timed

  module _ (c : Connection P) (timed : IsTimed c.armed c.state)
      (here : is_keying c.state ≡ true) where
    on_handshake_actions-Tracks :
        (result : Result (List FourWay.Action) Error)
        → Tracks P c.armed (on_handshake_actions P result c)
    unfolding on_handshake_actions
    on_handshake_actions-Tracks (err e) = fail-IsTracked P (from_eapol e) c
    on_handshake_actions-Tracks (ok actions) =
        then_Tracks c (each_action P actions c) (when P (any_complete actions) (configured P))
          (each_action-StaysTracked actions c timed here)
          (λ next timed'. when-Tracks (any_complete actions) next timed')

  module _ (input : FourWay.Input) where
    after_poll-Tracks :
        (c : Connection P) (session : Session P)
        (answer : Option (FourWay × Result (List FourWay.Action) Error))
        → IsTimed c.armed c.state
        → is_keying c.state ≡ true
        → Tracks P c.armed (after_poll P c session answer)
    unfolding after_poll
    after_poll-Tracks c session none timed here = tt
    after_poll-Tracks c session (some (h, result)) timed here =
        on_handshake_actions-Tracks _ timed here result

    poll_handshake-Tracks :
        (c : Connection P) (session : Session P) (handshake : Option FourWay)
        → IsTimed c.armed c.state
        → is_keying c.state ≡ true
        → Tracks P c.armed (poll_handshake P input c session handshake)
    unfolding poll_handshake
    poll_handshake-Tracks c session none timed here = stay-IsTracked P c timed
    poll_handshake-Tracks c session (some h) timed here = after_poll-Tracks c session _ timed here

    pub drive_handshake-Tracks :
        (c : Connection P)
        → IsTimed c.armed c.state
        → is_keying c.state ≡ true
        → Tracks P c.armed (drive_handshake P input c)
    unfolding drive_handshake
    drive_handshake-Tracks c timed here =
        by_option-Tracks P c.armed c.session _ _ (stay-IsTracked P c timed)
          (λ session. poll_handshake-Tracks c session session.handshake timed here)

  pub open_handshake-IsTracked :
      (pmk : List ℕ) (c : Connection P) (session : Session P) (rsn : Negotiated)
      (nonce : Result (List ℕ) Error)
      → IsTracked P c.armed (open_handshake P pmk c session rsn nonce)
  unfolding open_handshake
  open_handshake-IsTracked pmk c session rsn (err e) = fail-IsTracked P (from_eapol e) c
  open_handshake-IsTracked pmk c session rsn (ok nonce) = enter-IsTracked P handshaking _
