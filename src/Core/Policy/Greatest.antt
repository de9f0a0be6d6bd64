-- ===== src/Core/Policy/Greatest.antt =====
-- The last of the greatest of a list (crates/caw-core/src/policy.rs, `Iterator::max_by_key`).
use mathlib.Core.Path.{subst}
use caw.Prelude.{
  Bool, true, false, List, [], ◌∷◌, ◌≡◌, refl, ap, sym, ◌∙◌, ◌⊎◌, inl, inr, Option, none, some, All,
  if◌then◌else◌, Bool-cases, arith,
}
use caw.Prelude.Ints.{ℤ, pos, negsuc, int_leb}
use caw.Core.Policy.Select.{filter, max_from, max_by_key}

int_leb_self : (a : ℤ) → int_leb a a ≡ true
int_leb_self (pos a) = ground arith
int_leb_self (negsuc a) = ground arith

int_leb_trans : (a b c : ℤ) → int_leb a b ≡ true → int_leb b c ≡ true → int_leb a c ≡ true
int_leb_trans a b c first second = ground arith

int_leb_total : (a b : ℤ) → int_leb a b ≡ false → int_leb b a ≡ true
int_leb_total a b h = ground arith

unfoldable pub IsMember : {A : Type 0} → A → List A → Type 0
IsMember x [] = ⊥
IsMember x (y ∷ ys) = (x ≡ y) ⊎ IsMember x ys

module _ {A : Type 0} (key : A → ℤ) where
  -- No key is greater than that of `top`.
  unfoldable pub IsGreatest : A → List A → Type 0
  IsGreatest top [] = Unit {0}
  IsGreatest top (x ∷ xs) = (int_leb (key x) (key top) ≡ true) × IsGreatest top xs

  abbrev chosen : A → A → A
  chosen best x = if int_leb (key best) (key x) then x else best

  chosen-IsUpper :
      (best x : A)
      → (int_leb (key best) (key (chosen best x)) ≡ true)
        × (int_leb (key x) (key (chosen best x)) ≡ true)
  chosen-IsUpper best x = elim (Bool-cases (int_leb (key best) (key x))) [
    | inl up ↦ rw (ap (λ b. if b then x else best) up) (up, int_leb_self (key x))
    | inr down ↦
        rw (ap (λ b. if b then x else best) down)
          (int_leb_self (key best), int_leb_total (key best) (key x) down)
  ]

  chosen-either : (best x : A) → (chosen best x ≡ best) ⊎ (chosen best x ≡ x)
  chosen-either best x = elim (Bool-cases (int_leb (key best) (key x))) [
    | inl up ↦ inr (ap (λ b. if b then x else best) up)
    | inr down ↦ inl (ap (λ b. if b then x else best) down)
  ]

  max_from-upper : (best : A) (xs : List A) → int_leb (key best) (key (max_from key best xs)) ≡ true
  max_from-upper best [] = int_leb_self (key best)
  max_from-upper best (x ∷ xs) =
      int_leb_trans (key best) (key (chosen best x)) (key (max_from key (chosen best x) xs))
        ((chosen-IsUpper best x).0) (max_from-upper (chosen best x) xs)

  max_from-IsGreatest : (best : A) (xs : List A) → IsGreatest (max_from key best xs) xs
  unfolding IsGreatest
  max_from-IsGreatest best [] = tt
  max_from-IsGreatest best (x ∷ xs) = (
    int_leb_trans (key x) (key (chosen best x)) (key (max_from key (chosen best x) xs))
        ((chosen-IsUpper best x).1) (max_from-upper (chosen best x) xs),
    max_from-IsGreatest (chosen best x) xs,
  )

  max_from-IsMember : (best : A) (xs : List A) → IsMember (max_from key best xs) (best ∷ xs)
  unfolding IsMember
  max_from-IsMember best [] = inl refl
  max_from-IsMember best (x ∷ xs) = elim (max_from-IsMember (chosen best x) xs) [
    | inr later ↦ inr (inr later)
    | inl same ↦ elim (chosen-either best x) [
      | inl old ↦ inl (same ∙ old)
      | inr new ↦ inr (inl (same ∙ new))
    ]
  ]

  max_by_key-IsGreatest :
      (xs : List A) (top : A) → max_by_key key xs ≡ some top → IsMember top xs × IsGreatest top xs
  unfolding IsGreatest
  max_by_key-IsGreatest [] top e = cc e
  max_by_key-IsGreatest (x ∷ xs) top e =
      let same : max_from key x xs ≡ top = cc e in
      let found : IsMember (max_from key x xs) (x ∷ xs) × IsGreatest (max_from key x xs) (x ∷ xs) =
        (max_from-IsMember x xs, (max_from-upper x xs, max_from-IsGreatest x xs)) in
      subst (λ t. IsMember t (x ∷ xs) × IsGreatest t (x ∷ xs)) same found

  -- The greatest at a member.
  IsGreatest-at :
      (top y : A) (xs : List A)
      → IsGreatest top xs
      → IsMember y xs
      → int_leb (key y) (key top) ≡ true
  unfolding IsGreatest IsMember
  IsGreatest-at top y [] greatest here = absurd here
  IsGreatest-at top y (x ∷ xs) greatest here = elim here [
    | inl same ↦ rw same (greatest.0)
    | inr later ↦ IsGreatest-at top y xs (greatest.1) later
  ]

-- An element put in front under a test.
IsMember-if-inv :
    {A : Type 0} (x y : A) (xs : List A) (b : Bool)
    → IsMember x (if b then y ∷ xs else xs)
    → ((x ≡ y) × (b ≡ true)) ⊎ IsMember x xs
unfolding IsMember
IsMember-if-inv x y xs true (inl same) = inl (same, refl)
IsMember-if-inv x y xs true (inr later) = inr later
IsMember-if-inv x y xs false later = inr later

IsMember-if :
    {A : Type 0} (x y : A) (xs : List A) (b : Bool)
    → ((x ≡ y) × (b ≡ true)) ⊎ IsMember x xs
    → IsMember x (if b then y ∷ xs else xs)
unfolding IsMember
IsMember-if x y xs true (inl here) = inl (here.0)
IsMember-if x y xs true (inr later) = inr later
IsMember-if x y xs false (inl here) = cc (here.1)
IsMember-if x y xs false (inr later) = later

module _ {A : Type 0} (p : A → Bool) where
  filter-IsMember : (x : A) (xs : List A) → IsMember x (filter p xs) → (p x ≡ true) × IsMember x xs
  unfolding IsMember
  filter-IsMember x [] h = absurd h
  filter-IsMember x (y ∷ ys) h = elim (IsMember-if-inv x y (filter p ys) (p y) h) [
    | inl here ↦ (ap p (here.0) ∙ here.1, inl (here.0))
    | inr later ↦
        let found : (p x ≡ true) × IsMember x ys = filter-IsMember x ys later in
        (found.0, inr (found.1))
  ]

  IsMember-filter : (x : A) (xs : List A) → p x ≡ true → IsMember x xs → IsMember x (filter p xs)
  unfolding IsMember
  IsMember-filter x [] holds h = absurd h
  IsMember-filter x (y ∷ ys) holds (inl same) =
      IsMember-if x y (filter p ys) (p y) (inl (same, sym (ap p same) ∙ holds))
  IsMember-filter x (y ∷ ys) holds (inr later) =
      IsMember-if x y (filter p ys) (p y) (inr (IsMember-filter x ys holds later))

  -- The greatest of those that pass, against another one that passes.
  pub max_by_key-filter :
      (key : A → ℤ) (xs : List A) (top other : A)
      → max_by_key key (filter p xs) ≡ some top
      → IsMember other xs
      → p other ≡ true
      → IsMember top xs × ((p top ≡ true) × (int_leb (key other) (key top) ≡ true))
  max_by_key-filter key xs top other e listed passes =
      let found : IsMember top (filter p xs) × IsGreatest key top (filter p xs) =
        max_by_key-IsGreatest key (filter p xs) top e in
      let kept : (p top ≡ true) × IsMember top xs = filter-IsMember top xs (found.0) in
      (
        kept.1,
        (
          kept.0,
          IsGreatest-at key top other (filter p xs) (found.1)
              (IsMember-filter other xs passes listed),
        ),
      )

  -- What is picked by `max_by_key`: one that passes, and none that passes has a greater key; or
  -- nothing, where none passes.
  abbrev pub Picks : (A → ℤ) → List A → Option A → Type 0
  Picks key xs none = All (λ x. p x ≡ false) xs
  Picks key xs (some top) =
      IsMember top xs
      × (p top ≡ true)
      × All (λ x. (p x ≡ false) ⊎ (int_leb (key x) (key top) ≡ true)) xs

  filter-eq-nil : (xs : List A) → filter p xs ≡ [] → All (λ x. p x ≡ false) xs
  filter-eq-nil [] h = tt
  filter-eq-nil (x ∷ xs) h = elim (Bool-cases (p x)) [
    | inl passes ↦ cc (ap (λ b. if b then x ∷ filter p xs else filter p xs) passes, h)
    | inr fails ↦ (
      fails,
      filter-eq-nil xs (sym (ap (λ b. if b then x ∷ filter p xs else filter p xs) fails) ∙ h),
    )
  ]

  IsGreatest-filter :
      (key : A → ℤ) (top : A) (xs : List A)
      → IsGreatest key top (filter p xs)
      → All (λ x. (p x ≡ false) ⊎ (int_leb (key x) (key top) ≡ true)) xs
  unfolding IsGreatest
  IsGreatest-filter key top [] h = tt
  IsGreatest-filter key top (x ∷ xs) h = elim (Bool-cases (p x)) [
    | inl passes ↦
        let (first, later) : IsGreatest key top (x ∷ filter p xs) =
          subst (IsGreatest key top) (ap (λ b. if b then x ∷ filter p xs else filter p xs) passes)
            h in
        (inr first, IsGreatest-filter key top xs later)
    | inr fails ↦ (
      inl fails,
      IsGreatest-filter key top xs (
          subst (IsGreatest key top) (ap (λ b. if b then x ∷ filter p xs else filter p xs) fails)
            h),
    )
  ]

  max_by_key-eq-none : (key : A → ℤ) (xs : List A) → max_by_key key xs ≡ none → xs ≡ []
  max_by_key-eq-none key [] h = refl
  max_by_key-eq-none key (x ∷ xs) h = cc h

  pub max_by_key-Picks : (key : A → ℤ) (xs : List A) → Picks key xs (max_by_key key (filter p xs))
  max_by_key-Picks key xs = picked (max_by_key key (filter p xs)) refl
    where
      picked : (o : Option A) → max_by_key key (filter p xs) ≡ o → Picks key xs o
      picked none e = filter-eq-nil xs (max_by_key-eq-none key (filter p xs) e)
      picked (some top) e =
          let (inside, greatest) = max_by_key-IsGreatest key (filter p xs) top e in
          let (passes, member) = filter-IsMember top xs inside in
          (member, passes, IsGreatest-filter key top xs greatest)
