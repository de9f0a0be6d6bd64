-- ===== src/Crypto/Sae/Laws.antt =====
-- What the exchange relies on of the group (crates/caw-crypto/src/sae.rs): a prime-order group, the
-- encodings of its points and scalars, and the length of a hash.
use caw.Prelude.{ℕ, List, ◌∷◌, ◌++◌, ◌≡◌, false, some, length}
use caw.Crypto.Sae.{SaeGroup}

pub record IsSaeGroup (G : SaeGroup) : Type 0 where
  pub mul-scalar_add :
      (p : G.Point) (s t : G.Scalar) → G.mul p (G.scalar_add s t) ≡ G.add (G.mul p s) (G.mul p t)
  pub add-neg : (p q : G.Point) → G.add (G.add p q) (G.neg q) ≡ p
  pub mul_comm : (p : G.Point) (s t : G.Scalar) → G.mul (G.mul p s) t ≡ G.mul (G.mul p t) s
  pub scalar_add_comm : (s t : G.Scalar) → G.scalar_add s t ≡ G.scalar_add t s
  pub coordinates_some :
      (p : G.Point)
      → G.is_identity p ≡ false
      → (x : List ℕ) × ((y : List ℕ) × (G.coordinates p ≡ some (x, y)))
  pub coordinates_proper :
      (p : G.Point) (x y : List ℕ) → G.coordinates p ≡ some (x, y) → G.is_identity p ≡ false
  pub coordinates_sizes :
      (p : G.Point) (x y : List ℕ)
      → G.coordinates p ≡ some (x, y)
      → (length x ≡ 32) × (length y ≡ 32)
  pub from_sec1-coordinates :
      (p : G.Point) (x y : List ℕ)
      → G.coordinates p ≡ some (x, y)
      → G.from_sec1 (4 ∷ (x ++ y)) ≡ some p
  pub from_repr-to_bytes : (s : G.Scalar) → G.from_repr (G.to_bytes s) ≡ some s
  pub length-to_bytes : (s : G.Scalar) → length (G.to_bytes s) ≡ 32
  pub length-hmac : (key message : List ℕ) → length (G.hmac_sha256 key message) ≡ 32
