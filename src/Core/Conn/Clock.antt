-- ===== src/Core/Conn/Clock.antt =====
-- A timer as the daemon keeps it for a connection: it is set, it may expire, it is cleared
-- (crates/caw-core/src/conn.rs, `SetTimer`, `ClearTimer`; crates/cawd/src/timers.rs, `Timers`).
use caw.Prelude.{List, [], ◌∷◌, ◌==◌, ◌≡◌, refl, if◌then◌else◌, Option, none, some, arith}
use caw.Core.Conn.{TimerId, Action, set_timer, clear_timer}
use caw.Core.Conn.Transition.{is_stale, timer_tag}
use caw.Core.Conn.Replay.{timer_step, replay}

-- No timer has been set since the last was cleared, or the one that has runs or has expired.
pub data Clock : Type 0 where
  unset : Clock
  runs has_expired : TimerId → Clock

-- The timer that is set and not cleared.
unfoldable pub held : Clock → Option TimerId
held unset = none
held (runs id) = some id
held (has_expired id) = some id

unfoldable pub expire : Clock → Clock
expire (runs id) = has_expired id
expire clock = clock

-- An action: a timer may be set where no other is held, and starts again where it is held itself;
-- only the timer that is held may be cleared.
unfoldable pub clock_step : Clock → Action → Option Clock
clock_step clock (set_timer id millis) =
    if is_stale (held clock) (some id) then none else some (runs id)
clock_step clock (clear_timer id) = elim (held clock) [
  | none ↦ none
  | some before ↦ if timer_tag before == timer_tag id then some unset else none
]
clock_step clock _ = some clock

unfoldable pub clock_replay : Clock → List Action → Option Clock
clock_replay clock [] = some clock
clock_replay clock (action ∷ actions) = elim (clock_step clock action) [
  | none ↦ none
  | some next ↦ clock_replay next actions
]

pub held-expire : (clock : Clock) → held (expire clock) ≡ held clock
unfolding held expire
held-expire unset = refl
held-expire (runs id) = refl
held-expire (has_expired id) = refl

abbrev pub held_by : Option Clock → Option (Option TimerId)
held_by none = none
held_by (some clock) = some (held clock)

held_by-clock_step :
    (clock : Clock) (x : Action) → held_by (clock_step clock x) ≡ timer_step (held clock) x
unfolding timer_step clock_step held
held_by-clock_step unset x = ground arith
held_by-clock_step (runs id) x = ground arith
held_by-clock_step (has_expired id) x = ground arith

-- What is held is what the actions replayed over it leave.
pub held_by-clock_replay :
    (clock : Clock) (actions : List Action)
    → held_by (clock_replay clock actions) ≡ replay (held clock) actions
unfolding replay clock_replay
held_by-clock_replay clock [] = refl
held_by-clock_replay clock (x ∷ xs) =
    after (clock_step clock x) (timer_step (held clock) x) (held_by-clock_step clock x)
      (λ k. held_by-clock_replay k xs)
  where
    after :
        (next : Option Clock) (mid : Option (Option TimerId))
        → held_by next ≡ mid
        → ((k : Clock) → held_by (clock_replay k xs) ≡ replay (held k) xs)
        → held_by (elim next [ none ↦ none | some k ↦ clock_replay k xs ])
          ≡ elim mid [ none ↦ none | some m ↦ replay m xs ]
    after none none e later = refl
    after none (some m) e later = cc e
    after (some k) none e later = cc e
    after (some k) (some m) e later = let same : held k ≡ m = cc e in rw (← same) (later k)
