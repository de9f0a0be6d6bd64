-- ===== src/Crypto/Kdf/Symmetry.antt =====
-- The two ends of a 4-way handshake (crates/caw-crypto/src/kdf.rs, `derive_ptk`).
use caw.Prelude.{ℕ, List, [], ◌∷◌, ◌≡◌, refl, true, false, inl, inr, Bool-cases, arith}
use caw.Wifi.Suites.{Akm}
use caw.Crypto.Kdf.{Hmacs, bytes_lt, sorted_pair, derive_ptk}

pub bytes_lt-asymmetric : (a b : List ℕ) → bytes_lt a b ≡ true → bytes_lt b a ≡ false
bytes_lt-asymmetric [] [] h = refl
bytes_lt-asymmetric [] (y ∷ ys) h = refl
bytes_lt-asymmetric (x ∷ xs) [] h = cc
bytes_lt-asymmetric (x ∷ xs) (y ∷ ys) h = ground (arith, bytes_lt-asymmetric xs ys)

pub bytes_lt-antisymmetric : (a b : List ℕ) → bytes_lt a b ≡ false → bytes_lt b a ≡ false → a ≡ b
bytes_lt-antisymmetric [] [] h k = refl
bytes_lt-antisymmetric [] (y ∷ ys) h k = cc
bytes_lt-antisymmetric (x ∷ xs) [] h k = cc
bytes_lt-antisymmetric (x ∷ xs) (y ∷ ys) h k = ground (arith, bytes_lt-antisymmetric xs ys)

pub sorted_pair_comm : (a b : List ℕ) → sorted_pair a b ≡ sorted_pair b a
unfolding sorted_pair
sorted_pair_comm a b = elim (Bool-cases (bytes_lt a b)) [
  | inl lower ↦ rw (lower, bytes_lt-asymmetric a b lower) refl
  | inr not_lower ↦ elim (Bool-cases (bytes_lt b a)) [
    | inl upper ↦ rw (not_lower, upper) refl
    | inr neither ↦ rw (bytes_lt-antisymmetric a b not_lower neither) refl
  ]
]

-- The station and the access point derive the same pairwise keys from one PMK, each putting its own
-- address and nonce where the other puts its peer's.
pub derive_ptk_comm :
    (macs : Hmacs) (pmk : List ℕ) (akm : Akm) (aa spa anonce snonce : List ℕ)
    → derive_ptk macs pmk akm aa spa anonce snonce ≡ derive_ptk macs pmk akm spa aa snonce anonce
unfolding derive_ptk
derive_ptk_comm macs pmk akm aa spa anonce snonce =
    rw (sorted_pair_comm aa spa, sorted_pair_comm anonce snonce) refl
