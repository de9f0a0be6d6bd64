-- ===== src/Daemon/Timers/Next.antt =====
-- The deadline that the daemon's clock is armed for (crates/cawd/src/timers.rs, `next_deadline`).
use caw.Prelude.{
  ℕ, ◌≡◌, refl, inl, inr, false, not, List, [], ◌∷◌, leb, map, arith, Bool-cases, is_empty,
}
use caw.Daemon.Timers.{
  Entry, Timers, retain, insert_sorted, sort_by_at, earliest, next_deadline, expired,
}
use caw.Daemon.Timers.Expired.{is_due}

module _ {K : Type 0} where
  insert_some :
      (e : Entry K) (es : List (Entry K)) → is_empty (map (λ x. x.key) (insert_sorted e es)) ≡ false
  insert_some e [] = refl
  insert_some e (x ∷ xs) = elim (Bool-cases (leb e.at x.at)) [ inl s ↦ rw s | inr s ↦ rw s ]

  earliest_due :
      (es : List (Entry K)) (now : ℕ)
      → is_due (earliest es) now
        ≡ not (is_empty (map (λ x. x.key) (sort_by_at (retain (λ e. leb e.at now) es))))
  unfolding earliest
  earliest_due [] now = refl
  earliest_due (e ∷ es) now =
      let rest = earliest_due es now in
      elim (Bool-cases (leb e.at now)) [
        | inl u ↦
            rw (u, insert_some e (sort_by_at (retain (λ x. leb x.at now) es))) (ground (arith, u))
        | inr u ↦ rw u (ground (arith, u, rest))
      ]

  -- Some timer fires exactly when the next deadline has come: never before it, and always from then
  -- on; with no timers armed, none does.
  pub next_deadline-expired :
      (t : Timers K) (now : ℕ) → is_due (next_deadline t) now ≡ not (is_empty (expired t now).1)
  unfolding next_deadline expired
  next_deadline-expired t now = earliest_due t.entries now
