-- ===== src/Daemon/Timers/Expired.antt =====
-- Which timers fire, and which are left (crates/cawd/src/timers.rs, `expired`).
use caw.Prelude.{
  ℕ, ◌≡◌, refl, ap, ◌∙◌, sym, inl, inr, Bool, true, false, ◌||◌, List, [], ◌∷◌, leb, ltb,
  if◌then◌else◌, Option, none, some, map, arith, Bool-cases,
}
use caw.Daemon.Timers.{Entry, Timers, retain, insert_sorted, sort_by_at, expired}
use caw.Daemon.Timers.Deadlines.{IsEquality, deadline, deadline_in}

-- A deadline that has come.
abbrev pub is_due : Option ℕ → ℕ → Bool
is_due none now = false
is_due (some at) now = leb at now

module _ {K : Type 0} (same : K → K → Bool) where
  abbrev pub has_key : List (Entry K) → K → Bool
  has_key [] k = false
  has_key (e ∷ es) k = same e.key k || has_key es k

  abbrev pub member : List K → K → Bool
  member [] k = false
  member (x ∷ xs) k = same x k || member xs k

  -- No key has two entries.
  abbrev pub IsDistinct : List (Entry K) → Type 0
  IsDistinct [] = Unit {0}
  IsDistinct (e ∷ es) = (has_key es e.key ≡ false) × IsDistinct es

  member-sorted :
      (e : Entry K) (es : List (Entry K)) (k : K)
      → member (map (λ x. x.key) (insert_sorted e es)) k
        ≡ (same e.key k || member (map (λ x. x.key) es) k)
  member-sorted e [] k = refl
  member-sorted e (x ∷ xs) k = elim (Bool-cases (leb e.at x.at)) [
    | inl s ↦ rw s
    | inr s ↦ rw (s, member-sorted e xs k) (ground arith)
  ]

  member-sort :
      (es : List (Entry K)) (k : K)
      → member (map (λ x. x.key) (sort_by_at es)) k ≡ member (map (λ x. x.key) es) k
  member-sort [] k = refl
  member-sort (e ∷ es) k =
      member-sorted e (sort_by_at es) k ∙ ap (λ b. same e.key k || b) (member-sort es k)

  module _ (h : IsEquality same) where
    absent : (es : List (Entry K)) (k : K) → has_key es k ≡ false → deadline_in same es k ≡ none
    absent [] k a = refl
    absent (e ∷ es) k a = ground (arith, absent es k)

    absent_key :
        (es : List (Entry K)) (a k : K)
        → has_key es a ≡ false
        → same a k ≡ true
        → has_key es k ≡ false
    absent_key es a k n e = rw (h.sound a k e) at n

    fires :
        (es : List (Entry K)) (now : ℕ) (k : K)
        → IsDistinct es
        → member (map (λ x. x.key) (retain (λ e. leb e.at now) es)) k
          ≡ is_due (deadline_in same es k) now
    fires [] now k d = refl
    fires (e ∷ es) now k d =
        let rest = fires es now k d.1 in
        elim (Bool-cases (same e.key k)) [
          | inl s ↦
              let gone = absent es k (absent_key es e.key k d.0 s) in
              let rest' = rw gone at rest in
              elim (Bool-cases (leb e.at now)) [
                | inl u ↦ rw (u, s) (ground arith)
                | inr u ↦ rw (u, s) (rest' ∙ sym u)
              ]
          | inr s ↦ elim (Bool-cases (leb e.at now)) [
            | inl u ↦ rw (u, s) rest
            | inr u ↦ rw (u, s) rest
          ]
        ]

    stays :
        (es : List (Entry K)) (now : ℕ) (k : K)
        → IsDistinct es
        → deadline_in same (retain (λ e. ltb now e.at) es) k
          ≡ (if is_due (deadline_in same es k) now then none else deadline_in same es k)
    stays [] now k d = refl
    stays (e ∷ es) now k d =
        let rest = stays es now k d.1 in
        elim (Bool-cases (same e.key k)) [
          | inl s ↦
              let gone = absent es k (absent_key es e.key k d.0 s) in
              let rest' = rw gone at rest in
              elim (Bool-cases (ltb now e.at)) [
                | inl u ↦ rw (u, s) (ground arith)
                | inr u ↦ rw (u, s) (ground (arith, rest'))
              ]
          | inr s ↦ elim (Bool-cases (ltb now e.at)) [
            | inl u ↦ rw (u, s) rest
            | inr u ↦ rw (u, s) rest
          ]
        ]

    -- Where `==` decides the keys' equality and no key is armed twice, the keys that fire are
    -- exactly those whose deadline has come, and afterwards these keys have none, while every
    -- other key keeps its own.
    pub expired_lem :
        (t : Timers K) (now : ℕ) (k : K)
        → IsDistinct t.entries
        → (member (expired t now).1 k ≡ is_due (deadline same t k) now)
          × (deadline same (expired t now).0 k
              ≡ (if is_due (deadline same t k) now then none else deadline same t k))
    unfolding expired
    expired_lem t now k d = (
      member-sort (retain (λ e. leb e.at now) t.entries) k ∙ fires t.entries now k d,
      stays t.entries now k d,
    )
