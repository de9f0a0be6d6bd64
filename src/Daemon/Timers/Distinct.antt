-- ===== src/Daemon/Timers/Distinct.antt =====
-- No key is armed twice (crates/cawd/src/timers.rs).
use caw.Prelude.{
  ℕ, ◌+◌, ◌≡◌, refl, ap, ◌∙◌, inl, inr, Bool, true, false, not, ◌||◌, List, [], ◌∷◌, ltb, arith,
  Bool-cases,
}
use caw.Daemon.Timers.{Entry, Timers, retain, arm_in, arm, cancel, cancel_if, expired}
use caw.Daemon.Timers.Deadlines.{IsEquality}
use caw.Daemon.Timers.Expired.{has_key, IsDistinct}

module _ {K : Type 0} (same : K → K → Bool) where
  has_key-retain :
      (keep : Entry K → Bool) (es : List (Entry K)) (k : K)
      → has_key same es k ≡ false
      → has_key same (retain keep es) k ≡ false
  has_key-retain keep [] k n = refl
  has_key-retain keep (e ∷ es) k n = ground (arith, has_key-retain keep es k)

  pub retain-IsDistinct :
      (keep : Entry K → Bool) (es : List (Entry K))
      → IsDistinct same es
      → IsDistinct same (retain keep es)
  retain-IsDistinct keep [] d = tt
  retain-IsDistinct keep (e ∷ es) d = elim (Bool-cases (keep e)) [
    | inl u ↦ rw u (has_key-retain keep es e.key d.0, retain-IsDistinct keep es d.1)
    | inr u ↦ rw u (retain-IsDistinct keep es d.1)
  ]

  module _ (h : IsEquality same) where
    flipped : (a b : K) → same b a ≡ true → same a b ≡ true
    flipped a b e = rw (h.sound b a e) (h.complete a)

    has_key-arm_in :
        (es : List (Entry K)) (key k : K) (at : ℕ)
        → has_key same (arm_in same key at es) k ≡ (same key k || has_key same es k)
    unfolding arm_in
    has_key-arm_in [] key k at = refl
    has_key-arm_in (e ∷ es) key k at = elim (Bool-cases (same e.key key)) [
      | inl s ↦ rw (s, ap (λ x. same x k) (h.sound e.key key s)) (ground arith)
      | inr s ↦ rw (s, has_key-arm_in es key k at) (ground arith)
    ]

    arm_in-IsDistinct :
        (es : List (Entry K)) (key : K) (at : ℕ)
        → IsDistinct same es
        → IsDistinct same (arm_in same key at es)
    unfolding arm_in
    arm_in-IsDistinct [] key at d = (refl, tt)
    arm_in-IsDistinct (e ∷ es) key at d = elim (Bool-cases (same e.key key)) [
      | inl s ↦ rw s d
      | inr s ↦ rw s (
        has_key-arm_in es key e.key at ∙ ground (arith, flipped e.key key, d.0),
        arm_in-IsDistinct es key at d.1,
      )
    ]

    -- Where `==` decides the keys' equality, if no key is armed twice, none is after arming a
    -- key, cancelling by key or by a test, or taking the timers that fire.
    pub timers-IsDistinct :
        (t : Timers K) (key : K) (delay now : ℕ) (matches : K → Bool)
        → IsDistinct same t.entries
        → IsDistinct same (arm same t key delay now).entries
          × IsDistinct same (cancel same t key).entries
          × IsDistinct same (cancel_if t matches).entries
          × IsDistinct same (expired t now).0.entries
    unfolding arm cancel cancel_if expired
    timers-IsDistinct t key delay now matches d = (
      arm_in-IsDistinct t.entries key (now + delay) d,
      retain-IsDistinct (λ e. not (same e.key key)) t.entries d,
      retain-IsDistinct (λ e. not (matches e.key)) t.entries d,
      retain-IsDistinct (λ e. ltb now e.at) t.entries d,
    )
