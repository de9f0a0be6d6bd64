-- ===== src/Prelude/Results.antt =====
-- Rust's `Result`, its `?` operator as the bind of a `do` block, and the inversion of a bind.
use mathlib.Core.Path.{◌≡◌, refl}
use mathlib.Core.Logic.{◌⊎◌, inl, inr}
use mathlib.Core.Option.{Option, none, some}
use mathlib.Core.Bool.{Bool, true, false}
use native.Mathlib.Omega.{arith}

pub data Result (A E : Type 0) : Type 0 where
  ok : A → Result A E
  err : E → Result A E

infixl 5 ◌>>=◌ ◌>>◌
abbrev pub ◌>>=◌ : {A B E : Type 0} → Result A E → (A → Result B E) → Result B E
err failure >>= then_do = err failure
ok value >>= then_do = then_do value

-- `Option::ok_or`.
abbrev pub ok_or : {A E : Type 0} → Option A → E → Result A E
ok_or none e = err e
ok_or (some a) e = ok a

-- A step of a chain whose value is not used.
abbrev pub ◌>>◌ : {B E : Type 0} → Result (Unit {0}) E → Result B E → Result B E
check >> rest = check >>= λ _. rest

-- `if test { return Err(e) }`.
abbrev pub fail_if : {E : Type 0} → Bool → E → Result (Unit {0}) E
fail_if false e = ok tt
fail_if true e = err e

pub Result-cases :
    {A E : Type 0} (r : Result A E) → ((a : A) × (r ≡ ok a)) ⊎ ((e : E) × (r ≡ err e))
Result-cases (ok a) = inl (a, refl)
Result-cases (err e) = inr (e, refl)

-- Inversion of a chain that succeeds: its first step and the rest do.
pub >>=-eq-ok :
    {A B E : Type 0} (outcome : Result A E) (then_do : A → Result B E) {answer : B}
    → (outcome >>= then_do) ≡ ok answer
    → (value : A) × (outcome ≡ ok value) × (then_do value ≡ ok answer)
>>=-eq-ok (err failure) then_do chain = cc
>>=-eq-ok (ok value) then_do chain = (value, refl, chain)

pub >>-eq-ok :
    {B E : Type 0} (check : Result (Unit {0}) E) (rest : Result B E) {answer : B}
    → (check >> rest) ≡ ok answer
    → (check ≡ ok tt) × (rest ≡ ok answer)
>>-eq-ok (err failure) rest chain = cc
>>-eq-ok (ok u) rest chain = (refl, chain)

pub ok_or-eq-ok : {A E : Type 0} (o : Option A) (e : E) (a : A) → ok_or o e ≡ ok a → o ≡ some a
ok_or-eq-ok o e a h = ground arith

pub fail_if-eq-ok : {E : Type 0} (b : Bool) (e : E) (u : Unit {0}) → fail_if b e ≡ ok u → b ≡ false
fail_if-eq-ok b e u h = ground arith
