-- ===== src/Daemon/Timers/Deadlines.antt =====
-- What a table of timers says of each key (crates/cawd/src/timers.rs, `Timers`).
use caw.Prelude.{
  ℕ, ◌+◌, ◌≡◌, refl, ap, sym, inl, inr, Bool, true, not, List, [], ◌∷◌, if◌then◌else◌, Option, none,
  some, arith, Bool-cases,
}
use mathlib.Core.Path.{subst}
use caw.Daemon.Timers.{Entry, Timers, retain, arm_in, arm, cancel_if}

-- The keys' `==` decides their equality.
pub record IsEquality {K : Type 0} (same : K → K → Bool) : Type 0 where
  pub sound : (a b : K) → same a b ≡ true → a ≡ b
  pub complete : (a : K) → same a a ≡ true

module _ {K : Type 0} (same : K → K → Bool) where
  -- The deadline that a key has.
  abbrev pub deadline_in : List (Entry K) → K → Option ℕ
  deadline_in [] k = none
  deadline_in (e ∷ es) k = if same e.key k then some e.at else deadline_in es k

  abbrev pub deadline : Timers K → K → Option ℕ
  deadline t k = deadline_in t.entries k

  module _ (h : IsEquality same) where
    other_key : (a b k : K) → same a b ≡ true → same a k ≡ same b k
    other_key a b k e = ap (λ x. same x k) (h.sound a b e)

    -- Two keys that are a third's are the same.
    two_keys : (a b k : K) → same a k ≡ true → same b k ≡ true → same a b ≡ true
    two_keys a b k ea eb = subst (λ x. same a x ≡ true) (sym (h.sound b k eb)) ea

    deadline_in-arm_in :
        (es : List (Entry K)) (key k : K) (at : ℕ)
        → deadline_in (arm_in same key at es) k ≡ (if same key k then some at else deadline_in es k)
    unfolding arm_in
    deadline_in-arm_in [] key k at = refl
    deadline_in-arm_in (e ∷ es) key k at = elim (Bool-cases (same e.key key)) [
      | inl s ↦ rw (s, other_key e.key key k s) (ground arith)
      | inr s ↦ rw s (ground (arith, two_keys e.key key k, deadline_in-arm_in es key k at))
    ]

    same_matches : (matches : K → Bool) (a k : K) → same a k ≡ true → matches a ≡ matches k
    same_matches matches a k e = ap matches (h.sound a k e)

    deadline_in-retain :
        (es : List (Entry K)) (matches : K → Bool) (k : K)
        → deadline_in (retain (λ e. not (matches e.key)) es) k
          ≡ (if matches k then none else deadline_in es k)
    deadline_in-retain [] matches k = ground arith
    deadline_in-retain (e ∷ es) matches k =
        let rest = deadline_in-retain es matches k in
        elim (Bool-cases (same e.key k)) [
          | inl s ↦ elim (Bool-cases (matches k)) [
            | inl m ↦ rw (same_matches matches e.key k s, m) (rw m at rest)
            | inr m ↦ rw (same_matches matches e.key k s, m, s)
          ]
          | inr s ↦ elim (Bool-cases (matches e.key)) [
            | inl m ↦ rw (m, s) rest
            | inr m ↦ rw (m, s) rest
          ]
        ]

    -- Where `==` decides the keys' equality, arming gives the key the deadline `delay` after
    -- `now`, in place of any that it had, and leaves every other key's deadline as it was.
    pub deadline-arm :
        (t : Timers K) (key k : K) (delay now : ℕ)
        → deadline (arm same t key delay now) k
          ≡ (if same key k then some (now + delay) else deadline t k)
    unfolding arm
    deadline-arm t key k delay now = deadline_in-arm_in t.entries key k (now + delay)

    -- Where `==` decides the keys' equality, cancelling by a test takes the deadline off the keys
    -- that pass it, and off no other.
    pub deadline-cancel_if :
        (t : Timers K) (matches : K → Bool) (k : K)
        → deadline (cancel_if t matches) k ≡ (if matches k then none else deadline t k)
    unfolding cancel_if
    deadline-cancel_if t matches k = deadline_in-retain t.entries matches k
