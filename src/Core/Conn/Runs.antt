-- ===== src/Core/Conn/Runs.antt =====
-- The connection's actions over a run, against the timer that the daemon keeps for it
-- (crates/caw-core/src/conn.rs, crates/cawd/src/timers.rs).
use caw.Prelude.{List, [], ◌∷◌, ◌≡◌, refl, ap, ◌∙◌, Option, none, some}
use caw.Core.Profile.{Profile}
use caw.Core.Auth.{Providers}
use caw.Core.Conn.{Device, TimerId, Input, Connection, new}
use caw.Core.Conn.Transition.{Turn, is_stale}
use caw.Core.Conn.Events.{poll}
use caw.Core.Conn.Replay.{IsTimed, replay}
use caw.Core.Conn.Clock.{
  Clock, unset, held, expire, held-expire, clock_replay, held_by, held_by-clock_replay,
}
use caw.Core.Conn.Timed.{Tracks}
use caw.Core.Conn.TimedPoll.{poll-Tracks}

-- What happens to a connection: its timer expires, or it is given an input, with what the system
-- draws for it. An expiry is told as an input of its own, at any later time.
pub data Happening (P : Providers) : Type 0 where
  expiry : Happening P
  given : P.Draw → Input → Happening P

-- Where that leads: an input panics, an action misuses the timer, or the connection stands.
pub data Operated (P : Providers) : Type 0 where
  panicked misused : Operated P
  standing : Connection P → Clock → Operated P

module _ (P : Providers) where
  abbrev on_replayed :
      Connection P → Option Clock → (Connection P → Clock → Operated P) → Operated P
  on_replayed c none later = misused
  on_replayed c (some clock) later = later c clock

  abbrev on_turn : Clock → Option (Turn P) → (Connection P → Clock → Operated P) → Operated P
  on_turn clock none later = panicked
  on_turn clock (some (c, out)) later = on_replayed c (clock_replay clock out) later

  unfoldable pub operate : List (Happening P) → Connection P → Clock → Operated P
  operate [] c clock = standing c clock
  operate (expiry ∷ more) c clock = operate more c (expire clock)
  operate (given draw input ∷ more) c clock = on_turn clock (poll P draw input c) (operate more)

  abbrev IsKept : Connection P → Clock → Type 0
  IsKept c clock = (held clock ≡ c.armed) × IsTimed c.armed c.state

  -- No misuse, and the timer that is held is the one recorded, which is the state's.
  abbrev pub IsSound : Operated P → Type 0
  IsSound panicked = Unit {0}
  IsSound misused = ⊥
  IsSound (standing c clock) = IsKept c clock

  replayed-IsSound :
      (c : Connection P) (next : Option Clock) (later : Connection P → Clock → Operated P)
      → held_by next ≡ some c.armed
      → IsTimed c.armed c.state
      → ((c : Connection P) (clock : Clock) → IsKept c clock → IsSound (later c clock))
      → IsSound (on_replayed c next later)
  replayed-IsSound c none later e timed sound = cc e
  replayed-IsSound c (some clock) later e timed sound = sound c clock (cc e, timed)

  turn-IsSound :
      (armed : Option TimerId) (clock : Clock) (o : Option (Turn P))
      (later : Connection P → Clock → Operated P)
      → held clock ≡ armed
      → Tracks P armed o
      → ((c : Connection P) (clock : Clock) → IsKept c clock → IsSound (later c clock))
      → IsSound (on_turn clock o later)
  turn-IsSound armed clock none later e tracked sound = tt
  turn-IsSound armed clock (some (c, out)) later e (replayed, timed) sound =
      replayed-IsSound c (clock_replay clock out) later
        (held_by-clock_replay clock out ∙ ap (λ a. replay a out) e ∙ replayed) timed sound

  events-IsSound :
      (events : List (Happening P)) (c : Connection P) (clock : Clock)
      → IsKept c clock
      → IsSound (operate events c clock)
  unfolding operate
  events-IsSound [] c clock kept = kept
  events-IsSound (expiry ∷ more) c clock (e, timed) =
      events-IsSound more c (expire clock) (held-expire clock ∙ e, timed)
  events-IsSound (given draw input ∷ more) c clock (e, timed) =
      turn-IsSound c.armed clock (poll P draw input c) (operate more) e
        (poll-Tracks P draw c timed input) (events-IsSound more)

  -- Whatever inputs a new connection is given and whenever its timer expires, as long as no input
  -- panics: a timer is set only when no other is held, that is set and not yet cleared, whether it
  -- runs still or has expired; only the timer that is held is cleared; and in the end the timer that
  -- is held, if any, is the one recorded as armed, and is the timer of the state that is reached.
  pub operate-IsSound :
      (device : Device) (profiles : List Profile) (events : List (Happening P))
      → IsSound (operate events (new P device profiles) unset)
  unfolding new is_stale held
  operate-IsSound device profiles events =
      events-IsSound events (new P device profiles) unset (refl, refl)
