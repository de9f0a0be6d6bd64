-- ===== src/Prelude/Words.antt =====
-- Bytes, machine words and their big-endian form (`to_be_bytes`, `from_be_bytes`).
use Prim.Native.Nat.{ℕ, ◌+◌, ◌*◌, ◌/◌, ◌%◌, ◌<◌}
use mathlib.Core.Path.{◌≡◌, refl}
use mathlib.Core.List.{List, [], ◌∷◌}
use native.Mathlib.Omega.{arith}
use mathlib.Core.Bool.{Bool, true, false, ◌&&◌}
use caw.Prelude.Tests.{◌==◌}

abbrev pub IsByte : ℕ → Type 0
IsByte b = b < 256

abbrev pub IsU16 : ℕ → Type 0
IsU16 n = n < 65_536

abbrev pub IsU32 : ℕ → Type 0
IsU32 n = n < 4_294_967_296

abbrev pub u32_max : ℕ
u32_max = 4_294_967_295

abbrev pub u16_max : ℕ
u16_max = 65_535

abbrev pub be_u16 : ℕ → ℕ → ℕ
be_u16 a b = a * 256 + b

abbrev pub be_u32 : ℕ → ℕ → ℕ → ℕ → ℕ
be_u32 a b c d = a * 16_777_216 + b * 65_536 + c * 256 + d

unfoldable pub u16_bytes : ℕ → List ℕ
u16_bytes n = n / 256 % 256 ∷ n % 256 ∷ []

unfoldable pub u32_bytes : ℕ → List ℕ
u32_bytes n = n / 16_777_216 % 256 ∷ n / 65_536 % 256 ∷ n / 256 % 256 ∷ n % 256 ∷ []

pub be_u16-bytes : (n : ℕ) → IsU16 n → be_u16 (n / 256 % 256) (n % 256) ≡ n
be_u16-bytes n h = omega arith

pub be_u32-bytes :
    (n : ℕ)
    → IsU32 n
    → be_u32 (n / 16_777_216 % 256) (n / 65_536 % 256) (n / 256 % 256) (n % 256) ≡ n
be_u32-bytes n h = omega arith

pub be_u32-IsU32 :
    (a b c d : ℕ) → IsByte a → IsByte b → IsByte c → IsByte d → IsU32 (be_u32 a b c d)
be_u32-IsU32 a b c d ha hb hc hd = omega arith

-- `==` on byte strings.
abbrev pub bytes_eq : List ℕ → List ℕ → Bool
bytes_eq [] [] = true
bytes_eq [] (y ∷ ys) = false
bytes_eq (x ∷ xs) [] = false
bytes_eq (x ∷ xs) (y ∷ ys) = x == y && bytes_eq xs ys

pub bytes_eq→eq : (xs ys : List ℕ) → bytes_eq xs ys ≡ true → xs ≡ ys
bytes_eq→eq [] [] h = refl
bytes_eq→eq [] (y ∷ ys) h = cc
bytes_eq→eq (x ∷ xs) [] h = cc
bytes_eq→eq (x ∷ xs) (y ∷ ys) h = ground (arith, bytes_eq→eq xs ys)

pub bytes_eq_self : (xs : List ℕ) → bytes_eq xs xs ≡ true
bytes_eq_self [] = refl
bytes_eq_self (x ∷ xs) = ground (arith, bytes_eq_self xs)
