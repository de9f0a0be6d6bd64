-- ===== src/Crypto/Sae/Element.antt =====
-- The password as a point, and points and scalars as octets (crates/caw-crypto/src/sae.rs,
-- `password_token`, `password_element`, `commit_scalars` and the encodings).
use caw.Prelude.{
  ℕ, zero, suc, ◌+◌, ◌*◌, ◌/◌, ◌-◌, ◌%◌, ◌||◌, List, [], ◌∷◌, ◌++◌, if◌then◌else◌, Option, none,
  some, replicate,
}
use caw.Crypto.{auth_failed}
use caw.Crypto.Kdf.{bytes_lt}
use caw.Crypto.Sae.{
  SaeGroup, Outcome, returns, ◌>>=◌, ◌>>◌, refuse_if, or_refuse, hash_len, pwd_value_len,
}

-- "SAE Hash to Element u1 P1", with the two digits left open.
abbrev pub element_label : ℕ → ℕ → List ℕ
element_label u p =
    83 ∷ 65 ∷ 69 ∷ 32 ∷ 72 ∷ 97 ∷ 115 ∷ 104 ∷ 32 ∷ 116 ∷ 111 ∷ 32 ∷ 69 ∷ 108 ∷ 101 ∷ 109 ∷ 101 ∷ 110
    ∷ 116 ∷ 32 ∷ 117 ∷ u ∷ 32 ∷ 80 ∷ p ∷ []

-- `U256::from_be_byte_array` and `to_be_byte_array`.
unfoldable pub from_be : ℕ → List ℕ → ℕ
from_be n [] = n
from_be n (b ∷ bytes) = from_be (n * 256 + b) bytes

unfoldable pub to_be : ℕ → ℕ → List ℕ → List ℕ
to_be n zero bytes = bytes
to_be n (suc k) bytes = to_be (n / 256) k (n % 256 ∷ bytes)

module _ (G : SaeGroup) where
  unfoldable pub encode_element : G.Point → Option (List ℕ)
  encode_element point = elim (G.coordinates point) [ none ↦ none | some (x, y) ↦ some (x ++ y) ]

  unfoldable pub x_coordinate : G.Point → Option (List ℕ)
  x_coordinate point = elim (G.coordinates point) [ none ↦ none | some (x, y) ↦ some x ]

  unfoldable pub decode_element : List ℕ → Outcome G.Point
  decode_element bytes = do
    point ← or_refuse (G.from_sec1 (4 ∷ bytes)) auth_failed
    refuse_if (G.is_identity point) auth_failed
    returns point

  unfoldable pub decode_scalar : List ℕ → Outcome G.Scalar
  decode_scalar bytes = do
    scalar ← or_refuse (G.from_repr bytes) auth_failed
    refuse_if (G.scalar_eq scalar G.zero_scalar || G.scalar_eq scalar G.one_scalar) auth_failed
    returns scalar

  unfoldable pub map_to_point : List ℕ → List ℕ → List ℕ → G.Point
  map_to_point ssid password label = G.map_to_curve (G.hkdf ssid password label pwd_value_len)

  unfoldable pub password_token : List ℕ → List ℕ → G.Point
  password_token ssid password =
      G.add (map_to_point ssid password (element_label 49 49))
        (map_to_point ssid password (element_label 50 50))

  -- The reduced hash of the two addresses, the higher in front.
  unfoldable pub address_value : List ℕ → List ℕ → List ℕ
  address_value own peer =
      let hi = if bytes_lt peer own then own else peer in
      let lo = if bytes_lt peer own then peer else own in
      let val = from_be 0 (G.hmac_sha256 (replicate hash_len 0) (hi ++ lo)) in
      to_be (val % (G.order - 1) + 1) 32 []

  unfoldable pub password_element : G.Point → List ℕ → List ℕ → Option G.Point
  password_element pt own peer = elim (G.from_repr (address_value own peer)) [
    | none ↦ none
    | some val ↦ some (G.mul pt val)
  ]

  unfoldable pub scalar_from : List ℕ → G.Scalar
  scalar_from bytes =
      let s = G.reduce bytes in
      if G.scalar_eq s G.zero_scalar || G.scalar_eq s G.one_scalar then G.two_scalar else s
