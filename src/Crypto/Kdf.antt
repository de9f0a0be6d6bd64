-- ===== src/Crypto/Kdf.antt =====
-- The pairwise keys (crates/caw-crypto/src/kdf.rs) over the HMACs of another package. `none` is a
-- panic.
pub mod Symmetry
mod Examples
use caw.Prelude.{
  ℕ, zero, suc, ◌+◌, ◌-◌, ◌*◌, ◌/◌, ◌%◌, Bool, true, false, List, [], ◌∷◌, ◌++◌, ltb, leb, ◌==◌,
  if◌then◌else◌, Option, none, some, Result, ok, err, length, take, slice, min,
}
use caw.Wifi.Suites.{Akm, psk, psk_sha256, sae, dot1x, dot1x_sha256, owe}
use caw.Crypto.{CryptoError, Ptk, unsupported_akm}

-- A key, then the message.
pub record Hmacs : Type 0 where
  pub sha1 : List ℕ → List ℕ → List ℕ
  pub sha256 : List ℕ → List ℕ → List ℕ

abbrev pub le16_bytes : ℕ → List ℕ
le16_bytes n = n % 256 ∷ n / 256 % 256 ∷ []

-- `chunks_mut(size)`: the number of blocks of an output, and what each call of `block` leaves of it.
abbrev pub block_count : ℕ → ℕ → ℕ
block_count size len = (len + size - 1) / size

unfoldable pub blocks : (ℕ → List ℕ) → ℕ → ℕ → ℕ → ℕ → List ℕ
blocks block size zero i left = []
blocks block size (suc more) i left =
    take (min size left) (block i) ++ blocks block size more (suc i) (left - size)

unfoldable pub prf_sha1 : Hmacs → List ℕ → List ℕ → List ℕ → ℕ → List ℕ
prf_sha1 macs key label bytes len =
    blocks (λ i. macs.sha1 key (label ++ (0 ∷ (bytes ++ (i % 256 ∷ []))))) 20 (block_count 20 len) 0
      len

unfoldable pub kdf_sha256 :
    (List ℕ → List ℕ → List ℕ) → List ℕ → List ℕ → List ℕ → ℕ → Option (List ℕ)
kdf_sha256 hmac key label bytes len =
    if ltb 65_535 (len * 8)
    then none
    else some (
        blocks
          (λ i.
            hmac key (le16_bytes (i % 65_536 + 1) ++ (label ++ (bytes ++ le16_bytes (len * 8)))))
          32 (block_count 32 len) 0 len)

pub data PtkHash : Type 0 where
  by_sha1 by_sha256 : PtkHash

unfoldable pub ptk_hash : Akm → Result PtkHash CryptoError
ptk_hash dot1x = ok by_sha1
ptk_hash psk = ok by_sha1
ptk_hash dot1x_sha256 = ok by_sha256
ptk_hash psk_sha256 = ok by_sha256
ptk_hash sae = ok by_sha256
ptk_hash owe = ok by_sha256
ptk_hash akm = err unsupported_akm

-- `<` on byte strings.
abbrev pub bytes_lt : List ℕ → List ℕ → Bool
bytes_lt [] [] = false
bytes_lt [] (y ∷ ys) = true
bytes_lt (x ∷ xs) [] = false
bytes_lt (x ∷ xs) (y ∷ ys) = if x == y then bytes_lt xs ys else ltb x y

-- The lower of the two in front.
unfoldable pub sorted_pair : List ℕ → List ℕ → List ℕ
sorted_pair a b = if bytes_lt a b then a ++ b else b ++ a

-- "Pairwise key expansion"
abbrev pub ptk_label : List ℕ
ptk_label =
    80 ∷ 97 ∷ 105 ∷ 114 ∷ 119 ∷ 105 ∷ 115 ∷ 101 ∷ 32 ∷ 107 ∷ 101 ∷ 121 ∷ 32 ∷ 101 ∷ 120 ∷ 112 ∷ 97
    ∷ 110 ∷ 115 ∷ 105 ∷ 111 ∷ 110 ∷ []

abbrev pub ptk_len : ℕ
ptk_len = 48

unfoldable pub expand : Hmacs → PtkHash → List ℕ → List ℕ → Option (List ℕ)
expand macs by_sha1 pmk bytes = some (prf_sha1 macs pmk ptk_label bytes ptk_len)
expand macs by_sha256 pmk bytes = kdf_sha256 macs.sha256 pmk ptk_label bytes ptk_len

unfoldable pub split_keys : Option (List ℕ) → Option (Result Ptk CryptoError)
split_keys none = none
split_keys (some ptk) =
    some (ok (record { kck = slice 0 16 ptk; kek = slice 16 32 ptk; tk = slice 32 48 ptk }))

unfoldable pub derive_with :
    Hmacs → Result PtkHash CryptoError → List ℕ → List ℕ → Option (Result Ptk CryptoError)
derive_with macs (err e) pmk bytes = some (err e)
derive_with macs (ok hash) pmk bytes = split_keys (expand macs hash pmk bytes)

unfoldable pub derive_ptk :
    Hmacs → List ℕ → Akm → List ℕ → List ℕ → List ℕ → List ℕ → Option (Result Ptk CryptoError)
derive_ptk macs pmk akm aa spa anonce snonce =
    derive_with macs (ptk_hash akm) pmk (sorted_pair aa spa ++ sorted_pair anonce snonce)
