-- ===== src/Daemon/Timers.antt =====
-- Pending deadlines by key (crates/cawd/src/timers.rs, `Timers`). An `Instant` is a number, and
-- `same` is the key type's `==`.
pub mod Deadlines
pub mod Expired
pub mod Distinct
pub mod Next
mod Examples
use caw.Prelude.{
  ℕ, ◌+◌, Bool, true, false, not, List, [], ◌∷◌, leb, ltb, if◌then◌else◌, Option, none, some, map,
  min,
}

pub record Entry (K : Type 0) : Type 0 where
  pub key : K
  pub at : ℕ

pub record Timers (K : Type 0) : Type 0 where
  pub entries : List (Entry K)

-- `Vec::retain`, and `Iterator::filter`.
abbrev pub retain : {K : Type 0} → (Entry K → Bool) → List (Entry K) → List (Entry K)
retain keep [] = []
retain keep (e ∷ es) = if keep e then e ∷ retain keep es else retain keep es

-- `sort_by_key(|e| e.at)`, which keeps the order of equal deadlines.
abbrev pub insert_sorted : {K : Type 0} → Entry K → List (Entry K) → List (Entry K)
insert_sorted e [] = e ∷ []
insert_sorted e (x ∷ xs) = if leb e.at x.at then e ∷ x ∷ xs else x ∷ insert_sorted e xs

abbrev pub sort_by_at : {K : Type 0} → List (Entry K) → List (Entry K)
sort_by_at [] = []
sort_by_at (e ∷ es) = insert_sorted e (sort_by_at es)

unfoldable pub earliest : {K : Type 0} → List (Entry K) → Option ℕ
earliest [] = none
earliest (e ∷ es) = elim (earliest es) [ none ↦ some e.at | some m ↦ some (min e.at m) ]

module _ {K : Type 0} where
  unfoldable pub new : Timers K
  new = record { entries = [] }

  -- The first entry of the key is set, or a new one stands at the end.
  unfoldable pub arm_in : (K → K → Bool) → K → ℕ → List (Entry K) → List (Entry K)
  arm_in same key at [] = record { key = key; at = at } ∷ []
  arm_in same key at (e ∷ es) =
      if same e.key key then record { key = e.key; at = at } ∷ es else e ∷ arm_in same key at es

  unfoldable pub arm : (K → K → Bool) → Timers K → K → ℕ → ℕ → Timers K
  arm same t key delay now = record { entries = arm_in same key (now + delay) t.entries }

  unfoldable pub cancel : (K → K → Bool) → Timers K → K → Timers K
  cancel same t key = record { entries = retain (λ e. not (same e.key key)) t.entries }

  unfoldable pub cancel_if : Timers K → (K → Bool) → Timers K
  cancel_if t matches = record { entries = retain (λ e. not (matches e.key)) t.entries }

  unfoldable pub next_deadline : Timers K → Option ℕ
  next_deadline t = earliest t.entries

  -- The keys that are due, and the timers that are left.
  unfoldable pub expired : Timers K → ℕ → Timers K × List K
  expired t now = (
    record { entries = retain (λ e. ltb now e.at) t.entries },
    map (λ e. e.key) (sort_by_at (retain (λ e. leb e.at now) t.entries)),
  )
