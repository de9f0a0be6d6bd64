-- ===== src/Core/Conn/Failing.antt =====
-- How an attempt ends (crates/caw-core/src/conn.rs, `fail`).
use caw.Prelude.{
  ◌+◌, ◌%◌, ◌^◌, true, false, not, ◌&&◌, List, [], ◌∷◌, ◌++◌, ◌≡◌, refl, ap, ◌∙◌, ◌⊎◌, inl, inr,
  Option, none, some, Bool-cases, arith,
}
use caw.Core.Failure.{Failure, is_terminal, is_disconnected}
use caw.Core.Auth.{Providers}
use caw.Core.Conn.{
  idle, reconnecting, State, TimerId, reconnect_backoff, Connection, Action, failed, timer_of,
}
use caw.Core.Conn.Transition.{
  Turn, fail, back_off, give_up, will_retry, wants_retry, tear_down, enter, arm, disarm, cleared,
  is_stale, is_associated,
}

-- The failures that are reported.
unfoldable pub reports : List Action → List Failure
reports [] = []
reports (failed failure ∷ actions) = failure ∷ reports actions
reports (_ ∷ actions) = reports actions

reports-append : (xs ys : List Action) → reports (xs ++ ys) ≡ reports xs ++ reports ys
unfolding reports
reports-append [] ys = refl
reports-append (failed failure ∷ xs) ys = ap (λ fs. failure ∷ fs) (reports-append xs ys)
reports-append (_ ∷ xs) ys = reports-append xs ys

module _ (P : Providers) where
  reports-cleared : (armed : Option TimerId) → reports (cleared P armed) ≡ []
  unfolding reports
  reports-cleared none = refl
  reports-cleared (some id) = refl

  reports-tear_down : (failure : Failure) (c : Connection P) → reports (tear_down P failure c) ≡ []
  unfolding tear_down reports
  reports-tear_down failure c =
      elim (Bool-cases (is_associated c.state && not (is_disconnected failure))) [
        | inl held ↦ rw held refl
        | inr gone ↦ rw gone refl
      ]

  reports-enter : (state : State) (c : Connection P) → reports (enter P state c).1 ≡ []
  unfolding enter disarm reports
  reports-enter state c = elim (Bool-cases (is_stale c.armed (timer_of state))) [
    | inl stale ↦
        rw stale (reports-append (cleared P c.armed) _ ∙ (rw (reports-cleared c.armed) refl))
    | inr kept ↦ rw kept refl
  ]

  -- Retried: nothing is reported, the target is kept and the backoff timer is armed.
  abbrev pub IsRetried : Failure → Connection P → Turn P → Type 0
  IsRetried failure c (next, out) =
      (reports out ≡ [])
      × (next.state ≡ reconnecting)
      × (next.target ≡ c.target)
      × (next.armed ≡ some reconnect_backoff)
      × (is_terminal failure ≡ false)
      × (wants_retry c.target ≡ true)

  -- Over: exactly this failure is reported, and no target and no timer is left.
  abbrev pub IsOver : Failure → Turn P → Type 0
  IsOver failure (next, out) =
      (reports out ≡ failure ∷ [])
      × (next.state ≡ idle)
      × (next.target ≡ none)
      × (next.armed ≡ none)

  reports-back_off : (c : Connection P) → reports (back_off P c).1 ≡ []
  unfolding back_off arm reports
  reports-back_off c =
      let counted : Connection P = record c { attempts = (c.attempts + 1) % 2 ^ 32 } in
      reports-append (enter P reconnecting counted).1 _
      ∙ (rw (reports-enter reconnecting counted) refl)

  reports-give_up :
      (failure : Failure) (c : Connection P) → reports (give_up P failure c).1 ≡ failure ∷ []
  unfolding give_up disarm reports
  reports-give_up failure c =
      reports-append (cleared P c.armed) _ ∙ (rw (reports-cleared c.armed) refl)

  reports_after :
      (failure : Failure) (c : Connection P) (out : List Action)
      → reports (tear_down P failure c ++ out) ≡ reports out
  reports_after failure c out =
      reports-append (tear_down P failure c) out ∙ (rw (reports-tear_down failure c) refl)

  enter-target : (state : State) (c : Connection P) → (enter P state c).0.target ≡ c.target
  unfolding enter disarm
  enter-target state c = elim (Bool-cases (is_stale c.armed (timer_of state))) [
    | inl stale ↦ rw stale refl
    | inr kept ↦ rw kept refl
  ]

  enter-session : (state : State) (c : Connection P) → (enter P state c).0.session ≡ c.session
  unfolding enter disarm
  enter-session state c = elim (Bool-cases (is_stale c.armed (timer_of state))) [
    | inl stale ↦ rw stale refl
    | inr kept ↦ rw kept refl
  ]

  no_session_retried : (c : Connection P) → c.session ≡ none → (back_off P c).0.session ≡ none
  unfolding back_off arm
  no_session_retried c e =
      enter-session reconnecting (record c { attempts = (c.attempts + 1) % 2 ^ 32 }) ∙ e

  no_session_over :
      (failure : Failure) (c : Connection P)
      → c.session ≡ none
      → (give_up P failure c).0.session ≡ none
  unfolding give_up disarm
  no_session_over failure c e = e

  retried :
      (failure : Failure) (c bare : Connection P)
      → bare.target ≡ c.target
      → will_retry P failure c ≡ true
      → IsRetried failure c ((back_off P bare).0, tear_down P failure c ++ (back_off P bare).1)
  unfolding back_off arm will_retry enter
  retried failure c bare same again = (
    reports_after failure c (back_off P bare).1 ∙ reports-back_off bare,
    refl,
    enter-target reconnecting (record bare { attempts = (bare.attempts + 1) % 2 ^ 32 }) ∙ same,
    refl,
    ground arith,
    ground arith,
  )

  over :
      (failure : Failure) (c bare : Connection P)
      → IsOver failure
          ((give_up P failure bare).0, tear_down P failure c ++ (give_up P failure bare).1)
  unfolding give_up disarm
  over failure c bare = (
    reports_after failure c (give_up P failure bare).1 ∙ reports-give_up failure bare,
    refl,
    refl,
    refl,
  )

  -- An attempt that fails is either retried, which happens only to a failure that is not terminal,
  -- of a network to be held on to, or over: a failure is never reported alongside a retry. Either
  -- way no session is left.
  pub fail-IsRetried :
      (failure : Failure) (c : Connection P)
      → ((fail P failure c).0.session ≡ none)
        × (IsRetried failure c (fail P failure c) ⊎ IsOver failure (fail P failure c))
  unfolding fail
  fail-IsRetried failure c =
      let bare : Connection P = record c { session = none; pending = none } in
      elim (Bool-cases (will_retry P failure c)) [
        | inl again ↦
            rw again (no_session_retried bare refl, inl (retried failure c bare refl again))
        | inr done ↦ rw done (no_session_over failure bare refl, inr (over failure c bare))
      ]
