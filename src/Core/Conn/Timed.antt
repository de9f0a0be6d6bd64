-- ===== src/Core/Conn/Timed.antt =====
-- The timers that the connection's actions set and clear, against the one that is held
-- (crates/caw-core/src/conn.rs, `enter` to `disarm`).
use caw.Prelude.{
  ℕ, ◌+◌, ◌%◌, ◌^◌, Bool, true, false, not, ◌&&◌, List, [], ◌∷◌, ◌++◌, ◌≡◌, refl, ◌∙◌,
  if◌then◌else◌, Option, none, some, Bool-cases, inl, inr,
}
use caw.Core.Failure.{Failure, is_disconnected}
use caw.Core.Auth.{Providers}
use caw.Core.Conn.{
  State, TimerId, reconnect_backoff, idle, reconnecting, Connection, Action, disconnect_action,
  notify, failed, timer_of, backoff_ms, reason_leaving,
}
use caw.Core.Conn.Transition.{
  Turn, then_do, then_try, with_more, emit, arm, disarm, cleared, enter, go_idle, fail, back_off,
  give_up, will_retry, tear_down, is_associated, is_stale,
}
use caw.Core.Conn.Replay.{
  timer_step, replay, replay-cons, replay-append, IsTimed, is_stale_itself, replay-cleared,
  none-IsTimed, is_plain, plain_step,
}

module _ (P : Providers) where
  -- Replayed over the timer that was armed, the actions leave the timer that is armed, and this is
  -- the new state's.
  abbrev pub IsTracked : Option TimerId → Turn P → Type 0
  IsTracked armed (c, out) = (replay armed out ≡ some c.armed) × IsTimed c.armed c.state

  pub then_do-IsTracked :
      (armed : Option TimerId) (t : Turn P) (f : Connection P → Turn P)
      → IsTracked armed t
      → IsTracked t.0.armed (f t.0)
      → IsTracked armed (then_do P t f)
  then_do-IsTracked armed (c, out) f first second =
      (replay-append armed c.armed out _ first.0 ∙ second.0, second.1)

  pub stay-IsTracked : (c : Connection P) → IsTimed c.armed c.state → IsTracked c.armed (c, [])
  unfolding replay
  stay-IsTracked c timed = (refl, timed)

  pub emit-IsTracked :
      (x : Action) (c : Connection P)
      → is_plain x ≡ true
      → IsTimed c.armed c.state
      → IsTracked c.armed (emit P x c)
  unfolding replay
  emit-IsTracked x c plain timed =
      (replay-cons c.armed c.armed x [] (plain_step c.armed x plain), timed)

  pub arm-IsTracked :
      (id : TimerId) (millis : ℕ) (c : Connection P)
      → timer_of c.state ≡ some id
      → IsTimed c.armed c.state
      → IsTracked c.armed (arm P id millis c)
  unfolding replay timer_step arm
  arm-IsTracked id millis c here timed =
      let fresh : is_stale c.armed (some id) ≡ false = rw (← here) timed in
      (rw (fresh, replay, timer_step) refl, rw here (is_stale_itself id))

  pub disarm-IsTracked : (c : Connection P) → IsTracked c.armed (disarm P c)
  unfolding disarm is_stale
  disarm-IsTracked c = (replay-cleared P c.armed, refl)

  announce :
      (running : Option TimerId) (state : State) → replay running (notify state ∷ []) ≡ some running
  unfolding replay
  announce running state = replay-cons running running (notify state) [] (plain_step running _ refl)

  pub enter-IsTracked : (state : State) (c : Connection P) → IsTracked c.armed (enter P state c)
  unfolding enter disarm
  enter-IsTracked state c = elim (Bool-cases (is_stale c.armed (timer_of state))) [
    | inl stale ↦ rw stale (
      replay-append c.armed none (cleared P c.armed) (notify state ∷ []) (replay-cleared P c.armed)
          ∙ announce none state,
      none-IsTimed state,
    )
    | inr kept ↦ rw kept (announce c.armed state, kept)
  ]

  -- Clearing the timer, one more action and a state without a timer.
  pub ended-IsTracked :
      (armed : Option TimerId) (x : Action) (c : Connection P)
      → is_plain x ≡ true
      → c.armed ≡ none
      → IsTracked armed (c, cleared P armed ++ (x ∷ []))
  unfolding replay
  ended-IsTracked armed x c plain gone = rw gone (
    replay-append armed none (cleared P armed) (x ∷ []) (replay-cleared P armed)
        ∙ replay-cons none none x [] (plain_step none x plain),
    none-IsTimed c.state,
  )

  pub go_idle-IsTracked : (c : Connection P) → IsTracked c.armed (go_idle P c)
  unfolding go_idle disarm
  go_idle-IsTracked c = ended-IsTracked c.armed (notify idle) (go_idle P c).0 refl refl

  give_up-IsTracked :
      (failure : Failure) (c : Connection P) → IsTracked c.armed (give_up P failure c)
  unfolding give_up disarm
  give_up-IsTracked failure c =
      ended-IsTracked c.armed (failed failure) (give_up P failure c).0 refl refl

  pub enter-state : (state : State) (c : Connection P) → (enter P state c).0.state ≡ state
  unfolding enter
  enter-state state c = refl

  -- Entering a state and arming its timer.
  pub enter-arm-IsTracked :
      (state : State) (id : TimerId) (millis : ℕ) (c : Connection P)
      → timer_of state ≡ some id
      → IsTracked c.armed (then_do P (enter P state c) (arm P id millis))
  unfolding enter
  enter-arm-IsTracked state id millis c here =
      let entered : IsTracked c.armed (enter P state c) = enter-IsTracked state c in
      then_do-IsTracked c.armed (enter P state c) (arm P id millis) entered
        (arm-IsTracked id millis (enter P state c).0 here entered.1)

  back_off-IsTracked : (c : Connection P) → IsTracked c.armed (back_off P c)
  unfolding back_off timer_of
  back_off-IsTracked c =
      let counted : Connection P = record c { attempts = (c.attempts + 1) % 2 ^ 32 } in
      enter-arm-IsTracked reconnecting reconnect_backoff (backoff_ms counted.attempts) counted refl

  -- Plain actions in front change nothing.
  pub lead-IsTracked :
      (armed : Option TimerId) (lead : List Action) (t : Turn P)
      → replay armed lead ≡ some armed
      → IsTracked armed t
      → IsTracked armed (t.0, lead ++ t.1)
  lead-IsTracked armed lead t led tracked =
      (replay-append armed armed lead t.1 led ∙ tracked.0, tracked.1)

  tear_down_led :
      (failure : Failure) (c : Connection P) → replay c.armed (tear_down P failure c) ≡ some c.armed
  unfolding tear_down replay
  tear_down_led failure c =
      elim (Bool-cases (is_associated c.state && not (is_disconnected failure))) [
        | inl held ↦ rw held (
            replay-cons c.armed c.armed _ []
              (plain_step c.armed (disconnect_action reason_leaving) refl))
        | inr gone ↦ rw gone refl
      ]

  pub fail-IsTracked : (failure : Failure) (c : Connection P) → IsTracked c.armed (fail P failure c)
  unfolding fail
  fail-IsTracked failure c =
      let bare : Connection P = record c { session = none; pending = none } in
      let led : replay c.armed (tear_down P failure c) ≡ some c.armed = tear_down_led failure c in
      elim (Bool-cases (will_retry P failure c)) [
        | inl again ↦ rw again (
            lead-IsTracked c.armed (tear_down P failure c) (back_off P bare) led
              (back_off-IsTracked bare))
        | inr over ↦ rw over (
            lead-IsTracked c.armed (tear_down P failure c) (give_up P failure bare) led
              (give_up-IsTracked failure bare))
      ]

  -- The same of a method that may panic.
  abbrev pub Tracks : Option TimerId → Option (Turn P) → Type 0
  Tracks armed none = Unit {0}
  Tracks armed (some t) = IsTracked armed t

  pub then_try-Tracks :
      (armed : Option TimerId) (t : Turn P) (f : Connection P → Option (Turn P))
      → IsTracked armed t
      → Tracks t.0.armed (f t.0)
      → Tracks armed (then_try P t f)
  then_try-Tracks armed (c, out) f first second = more (f c) second
    where
      more : (o : Option (Turn P)) → Tracks c.armed o → Tracks armed (with_more P out o)
      more none tracked = tt
      more (some (next, rest)) tracked =
          (replay-append armed c.armed out rest first.0 ∙ tracked.0, tracked.1)

  -- Entering a state, one action, and the state's timer.
  pub enter-emit-IsTracked :
      (state : State) (id : TimerId) (millis : ℕ) (x : Action) (c : Connection P)
      → is_plain x ≡ true
      → timer_of state ≡ some id
      → IsTracked c.armed (then_do P (then_do P (enter P state c) (emit P x)) (arm P id millis))
  unfolding enter
  enter-emit-IsTracked state id millis x c plain here =
      let entered : IsTracked c.armed (enter P state c) = enter-IsTracked state c in
      let told : IsTracked c.armed (then_do P (enter P state c) (emit P x)) =
        then_do-IsTracked c.armed (enter P state c) (emit P x) entered
          (emit-IsTracked x (enter P state c).0 plain entered.1) in
      then_do-IsTracked c.armed (then_do P (enter P state c) (emit P x)) (arm P id millis) told
        (arm-IsTracked id millis (enter P state c).0 here told.1)

  -- A method that branches on whether a value is there, or on a test.
  pub by_option-Tracks :
      {A : Type 0} (armed : Option TimerId) (o : Option A) (absent : Option (Turn P))
      (present : A → Option (Turn P))
      → Tracks armed absent
      → ((a : A) → Tracks armed (present a))
      → Tracks armed (elim o [ none ↦ absent | some a ↦ present a ])
  by_option-Tracks armed none absent present first second = first
  by_option-Tracks armed (some a) absent present first second = second a

  pub by_test-Tracks :
      (armed : Option TimerId) (b : Bool) (first second : Option (Turn P))
      → (b ≡ true → Tracks armed first)
      → (b ≡ false → Tracks armed second)
      → Tracks armed (if b then first else second)
  by_test-Tracks armed true first second yes_case no_case = yes_case refl
  by_test-Tracks armed false first second yes_case no_case = no_case refl
