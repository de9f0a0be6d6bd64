-- ===== src/Daemon/Timers/Examples.antt =====
-- Three timers, two of them due (crates/cawd/src/timers.rs).
use caw.Prelude.{ℕ, ◌≡◌, refl, Bool, true, [], ◌∷◌, ◌==◌, ==_iff, none}
use caw.Daemon.Timers.{Timers, expired}
use caw.Daemon.Timers.Deadlines.{IsEquality, deadline}
use caw.Daemon.Timers.Expired.{member, expired_lem}

abbrev same : ℕ → ℕ → Bool
same a b = a == b

same-IsEquality : IsEquality same
same-IsEquality = record { sound = λ a b e. (==_iff a b).0 e; complete = λ a. (==_iff a a).1 refl }

abbrev armed : Timers ℕ
armed = record {
  entries =
      record { key = 1; at = 30 } ∷ record { key = 2; at = 10 } ∷ record { key = 3; at = 50 } ∷ [];
}

fires_soonest_first : (expired armed 40).1 ≡ 2 ∷ 1 ∷ []
unfolding expired
fires_soonest_first = refl

expired_lem_example :
    (member same (expired armed 40).1 1 ≡ true) × (deadline same (expired armed 40).0 1 ≡ none)
expired_lem_example = expired_lem same same-IsEquality armed 40 1 (refl, (refl, (refl, tt)))
