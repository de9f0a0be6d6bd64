-- ===== src/Core/Conn/TimedJoin.antt =====
-- The timers of joining a BSS (crates/caw-core/src/conn.rs, `plan` to `associate`).
use caw.Prelude.{ℕ, Bool, true, false, List, ◌≡◌, refl, ap, Option, none, some, Result, ok, err}
use caw.Wifi.Nl80211.{Bss}
use caw.Crypto.{CryptoError, Step, send_step, wait_step, done_step}
use caw.Core.Policy.{Credential}
use caw.Core.Failure.{Failure, internal, frame_without_body, from_crypto, missing_credential}
use caw.Core.Auth.{
  Providers, Auth, open_auth, offloaded, pre_assoc, post_assoc, ready, running, SaeEvent, sae_start,
}
use caw.Core.Conn.{
  authenticating, associating, auth_timeout, assoc_timeout, auth_timeout_ms, assoc_timeout_ms,
  AuthRequest, AssocRequest, associate_action, authenticate_action, request_secret, Target,
  Negotiated, Choice, Session, Connection, timer_of,
}
use caw.Core.Conn.Transition.{emit, arm, disarm, enter, ssid_of}
use caw.Core.Conn.Negotiate.{element_of}
use caw.Core.Conn.Join.{
  send_association, associate_secured, associate_with, associate, send_auth, auth_request,
  on_sae_done, on_sae_step, drive_provider, drive_sae, start_sae,
}
use caw.Core.Conn.Plan.{begin, auth_for, join, ask, ask_unless, plan_with, plan, is_pre_assoc}
use caw.Core.Conn.Replay.{IsTimed}
use caw.Core.Conn.Timed.{
  IsTracked, Tracks, then_do-IsTracked, then_try-Tracks, stay-IsTracked, emit-IsTracked,
  arm-IsTracked, enter-IsTracked, fail-IsTracked, enter-emit-IsTracked, enter-state,
  ended-IsTracked, by_option-Tracks, by_test-Tracks,
}

module _ (P : Providers) where
  send_association-IsTracked :
      (request : AssocRequest) (session : Session P) (c : Connection P)
      → IsTracked P c.armed (send_association P request session c)
  unfolding send_association timer_of
  send_association-IsTracked request session c =
      enter-emit-IsTracked P associating assoc_timeout assoc_timeout_ms (associate_action request)
        (record c { session = some session }) refl refl

  associate_secured-Tracks :
      (request : AssocRequest) (session : Session P) (c : Connection P) (rsn : Negotiated)
      (element : Option (List ℕ))
      → Tracks P c.armed (associate_secured P request session c rsn element)
  unfolding associate_secured
  associate_secured-Tracks request session c rsn none = tt
  associate_secured-Tracks request session c rsn (some element) = send_association-IsTracked _ _ c

  associate_with-Tracks :
      (c : Connection P) (target : Target) (session : Session P)
      → Tracks P c.armed (associate_with P c target session)
  unfolding associate_with
  associate_with-Tracks c target session =
      by_option-Tracks P c.armed session.choice.rsn _ _ (send_association-IsTracked _ _ c)
        (λ rsn. associate_secured-Tracks _ _ c rsn (element_of session.pmkid rsn))

  pub associate-Tracks : (c : Connection P) → Tracks P c.armed (associate P c)
  unfolding associate
  associate-Tracks c = by_option-Tracks P c.armed c.target _ _ tt (λ target.
      by_option-Tracks P c.armed c.session _ _ tt
        (λ session. associate_with-Tracks c target session))

  module _ (c : Connection P) (timed : IsTimed c.armed c.state)
      (here : c.state ≡ authenticating) where
    send_auth-IsTracked :
        (request : Option AuthRequest) → IsTracked P c.armed (send_auth P c request)
    unfolding send_auth timer_of
    send_auth-IsTracked none = fail-IsTracked P (internal frame_without_body) c
    send_auth-IsTracked (some request) =
        then_do-IsTracked P c.armed (emit P (authenticate_action request) c)
          (arm P auth_timeout auth_timeout_ms)
          (emit-IsTracked P (authenticate_action request) c refl timed)
          (arm-IsTracked P auth_timeout auth_timeout_ms c (ap timer_of here) timed)

    on_sae_done-Tracks :
        (pmk : List ℕ) (session : Option (Session P))
        → Tracks P c.armed (on_sae_done P c pmk session)
    unfolding on_sae_done
    on_sae_done-Tracks pmk none = tt
    on_sae_done-Tracks pmk (some session) = associate-Tracks _

    on_sae_step-Tracks : (step : Result Step CryptoError) → Tracks P c.armed (on_sae_step P c step)
    unfolding on_sae_step
    on_sae_step-Tracks (ok (send_step frame)) = send_auth-IsTracked (auth_request P c frame)
    on_sae_step-Tracks (ok wait_step) = stay-IsTracked P c timed
    on_sae_step-Tracks (ok (done_step pmk)) = on_sae_done-Tracks pmk c.session
    on_sae_step-Tracks (err e) = fail-IsTracked P (from_crypto e) c

  module _ (draw : P.Draw) where
    drive_provider-Tracks :
        (event : SaeEvent) (c : Connection P) (target : Target) (session : Session P)
        (auth : Auth P)
        → IsTimed c.armed c.state
        → c.state ≡ authenticating
        → Tracks P c.armed (drive_provider P draw event c target session auth)
    unfolding drive_provider
    drive_provider-Tracks event c target session (pre_assoc provider) timed here =
        on_sae_step-Tracks _ timed here _
    drive_provider-Tracks event c target session open_auth timed here = stay-IsTracked P c timed
    drive_provider-Tracks event c target session (offloaded o) timed here = stay-IsTracked P c timed
    drive_provider-Tracks event c target session (post_assoc p) timed here =
        stay-IsTracked P c timed
    drive_provider-Tracks event c target session (ready pmk) timed here = stay-IsTracked P c timed
    drive_provider-Tracks event c target session running timed here = stay-IsTracked P c timed

    pub drive_sae-Tracks :
        (event : SaeEvent) (c : Connection P)
        → IsTimed c.armed c.state
        → c.state ≡ authenticating
        → Tracks P c.armed (drive_sae P draw event c)
    unfolding drive_sae
    drive_sae-Tracks event c timed here =
        by_option-Tracks P c.armed c.target _ _ (stay-IsTracked P c timed) (λ target.
          by_option-Tracks P c.armed c.session _ _ (stay-IsTracked P c timed)
            (λ session. drive_provider-Tracks event c target session session.auth timed here))

    start_sae-Tracks : (c : Connection P) → Tracks P c.armed (start_sae P draw c)
    unfolding start_sae
    start_sae-Tracks c =
        let entered : IsTracked P c.armed (enter P authenticating c) =
          enter-IsTracked P authenticating c in
        then_try-Tracks P c.armed (enter P authenticating c) (drive_sae P draw sae_start) entered (
          drive_sae-Tracks sae_start (enter P authenticating c).0 entered.1
            (enter-state P authenticating c))

    begin-Tracks :
        (choice : Choice) (c : Connection P) (auth : Auth P)
        → IsTimed c.armed c.state
        → Tracks P c.armed (begin P draw choice c auth)
    unfolding begin
    begin-Tracks choice c auth timed =
        by_test-Tracks P c.armed (is_pre_assoc P auth) _ _
          (λ _.
            by_test-Tracks P c.armed choice.roaming _ _ (λ _. stay-IsTracked P c timed)
              (λ _. start_sae-Tracks _))
          (λ _. associate-Tracks _)

    join-Tracks :
        (choice : Choice) (c : Connection P) (auth : Result (Auth P) Failure)
        → IsTimed c.armed c.state
        → Tracks P c.armed (join P draw choice c auth)
    unfolding join
    join-Tracks choice c (err failure) timed = fail-IsTracked P failure c
    join-Tracks choice c (ok auth) timed = begin-Tracks choice c auth timed

    ask_unless-IsTracked :
        (bss : Bss) (c : Connection P) (refused : Bool)
        → IsTracked P c.armed (ask_unless P bss c refused)
    unfolding ask_unless disarm
    ask_unless-IsTracked bss c true = fail-IsTracked P missing_credential c
    ask_unless-IsTracked bss c false =
        ended-IsTracked P c.armed (request_secret (ssid_of P c.target)) (ask_unless P bss c false).0
          refl refl

    ask-IsTracked :
        (bss : Bss) (choice : Choice) (c : Connection P) → IsTracked P c.armed (ask P bss choice c)
    unfolding ask
    ask-IsTracked bss choice c = ask_unless-IsTracked bss c _

    plan_with-Tracks :
        (bss : Bss) (roaming : Bool) (c : Connection P) (credential : Option Credential)
        (choice : Result Choice Failure)
        → IsTimed c.armed c.state
        → Tracks P c.armed (plan_with P draw bss roaming c credential choice)
    unfolding plan_with
    plan_with-Tracks bss true c credential (err failure) timed = stay-IsTracked P c timed
    plan_with-Tracks bss false c credential (err failure) timed = fail-IsTracked P failure c
    plan_with-Tracks bss roaming c none (ok choice) timed = ask-IsTracked bss choice c
    plan_with-Tracks bss roaming c (some credential) (ok choice) timed =
        join-Tracks choice c (auth_for P draw c choice credential) timed

    pub plan-Tracks :
        (bss : Bss) (roaming : Bool) (c : Connection P)
        → IsTimed c.armed c.state
        → Tracks P c.armed (plan P draw bss roaming c)
    unfolding plan
    plan-Tracks bss roaming c timed = plan_with-Tracks bss roaming c _ _ timed
