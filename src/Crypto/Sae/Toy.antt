-- ===== src/Crypto/Sae/Toy.antt =====
-- A group of two points, on which the exchange of crates/caw-crypto/src/sae.rs runs.
use caw.Prelude.{
  ℕ, ◌+◌, Bool, true, false, not, ◌&&◌, List, [], ◌∷◌, ◌++◌, ◌≡◌, refl, ap, sym, arith, Option,
  none, some, length, get_or, replicate, ◌==◌, if◌then◌else◌,
}
use caw.Crypto.Sae.{SaeGroup}
use caw.Crypto.Sae.Laws.{IsSaeGroup}

-- A scalar acts by its first part.
pub record Scalar : Type 0 where
  pub acts : Bool
  pub tag : ℕ

abbrev pub xor : Bool → Bool → Bool
xor true b = not b
xor false b = b

abbrev pub sum : List ℕ → ℕ
sum [] = 0
sum (b ∷ bytes) = b + sum bytes

abbrev pub bit : Bool → ℕ
bit true = 0
bit false = 1

abbrev hash : List ℕ → List ℕ → List ℕ
hash key message = sum key ∷ sum message ∷ replicate 30 7

abbrev point_at : Bool → Option (List ℕ × List ℕ)
point_at true = some (9 ∷ replicate 31 0, replicate 32 0)
point_at false = none

abbrev pub toy : SaeGroup
toy = record {
  Point = Bool;
  Scalar = Scalar;
  add = xor;
  neg = λ p. p;
  mul = λ p s. p && s.acts;
  is_identity = not;
  coordinates = point_at;
  from_sec1 = λ bytes. if get_or bytes 1 0 == 9 then some true else none;
  scalar_add = λ s t. record { acts = xor s.acts t.acts; tag = s.tag + t.tag };
  scalar_eq = λ s t. s.tag == t.tag;
  zero_scalar = record { acts = false; tag = 0 };
  one_scalar = record { acts = true; tag = 1 };
  two_scalar = record { acts = true; tag = 2 };
  to_bytes = λ s. bit s.acts ∷ s.tag ∷ replicate 30 0;
  from_repr = λ bytes. some (record { acts = get_or bytes 0 0 == 0; tag = get_or bytes 1 0 });
  reduce = λ bytes. record { acts = true; tag = 2 + sum bytes };
  map_to_curve = λ bytes. get_or bytes 0 0 == 49;
  order = 1000;
  hmac_sha256 = hash;
  hkdf = λ salt key label len. get_or label 21 0 ∷ sum salt ∷ sum key ∷ [];
}

mul-scalar_add : (p s t : Bool) → (p && xor s t) ≡ xor (p && s) (p && t)
mul-scalar_add p s t = ground arith

add-neg : (p q : Bool) → xor (xor p q) q ≡ p
add-neg true true = refl
add-neg true false = refl
add-neg false true = refl
add-neg false false = refl

mul_comm : (p s t : Bool) → (p && s && t) ≡ (p && t && s)
mul_comm p s t = ground arith

scalar_add_comm : (s t : Scalar) → toy.scalar_add s t ≡ toy.scalar_add t s
scalar_add_comm s t = ground arith

abbrev first_of : Option (List ℕ × List ℕ) → List ℕ
first_of none = []
first_of (some (x, y)) = x

abbrev second_of : Option (List ℕ × List ℕ) → List ℕ
second_of none = []
second_of (some (x, y)) = y

coordinates_some :
    (p : Bool) → not p ≡ false → (x : List ℕ) × ((y : List ℕ) × (point_at p ≡ some (x, y)))
coordinates_some true h = (9 ∷ replicate 31 0, (replicate 32 0, refl))
coordinates_some false h = cc h

coordinates_proper : (p : Bool) (x y : List ℕ) → point_at p ≡ some (x, y) → not p ≡ false
coordinates_proper true x y h = refl
coordinates_proper false x y h = cc h

coordinates_sizes :
    (p : Bool) (x y : List ℕ) → point_at p ≡ some (x, y) → (length x ≡ 32) × (length y ≡ 32)
coordinates_sizes true x y h =
    (sym (ap (λ o. length (first_of o)) h), sym (ap (λ o. length (second_of o)) h))
coordinates_sizes false x y h = cc h

from_sec1-coordinates :
    (p : Bool) (x y : List ℕ) → point_at p ≡ some (x, y) → toy.from_sec1 (4 ∷ (x ++ y)) ≡ some p
from_sec1-coordinates true x y h = sym (ap (λ o. toy.from_sec1 (4 ∷ (first_of o ++ second_of o))) h)
from_sec1-coordinates false x y h = cc h

from_parts :
    (acts : Bool) (tag : ℕ)
    → toy.from_repr (toy.to_bytes (record { acts = acts; tag = tag }))
      ≡ some (record { acts = acts; tag = tag })
from_parts true tag = refl
from_parts false tag = refl

from_repr-to_bytes : (s : Scalar) → toy.from_repr (toy.to_bytes s) ≡ some s
from_repr-to_bytes s = from_parts s.acts s.tag

pub toy-IsSaeGroup : IsSaeGroup toy
toy-IsSaeGroup = record {
  mul-scalar_add = λ p s t. mul-scalar_add p s.acts t.acts;
  add-neg = add-neg;
  mul_comm = λ p s t. mul_comm p s.acts t.acts;
  scalar_add_comm = scalar_add_comm;
  coordinates_some = coordinates_some;
  coordinates_proper = coordinates_proper;
  coordinates_sizes = coordinates_sizes;
  from_sec1-coordinates = from_sec1-coordinates;
  from_repr-to_bytes = from_repr-to_bytes;
  length-to_bytes = λ s. refl;
  length-hmac = λ key message. refl;
}
