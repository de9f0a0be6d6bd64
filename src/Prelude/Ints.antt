-- ===== src/Prelude/Ints.antt =====
-- Signed machine integers over the native numbers.
use Prim.Native.Nat.{ℕ, ◌+◌, ◌-◌}
use mathlib.Core.Bool.{Bool, true, false}
use caw.Prelude.Tests.{leb, if◌then◌else◌}

pub data ℤ : Type 0 where
  pos : ℕ → ℤ
  negsuc : ℕ → ℤ

-- `a <= b`
abbrev pub int_leb : ℤ → ℤ → Bool
int_leb (pos a) (pos b) = leb a b
int_leb (pos a) (negsuc b) = false
int_leb (negsuc a) (pos b) = true
int_leb (negsuc a) (negsuc b) = leb b a

abbrev pub add_nat : ℤ → ℕ → ℤ
add_nat (pos a) n = pos (a + n)
add_nat (negsuc a) n = if leb (a + 1) n then pos (n - (a + 1)) else negsuc (a - n)

-- `i32::saturating_add` of a number that is not negative.
abbrev pub saturating_add : ℤ → ℕ → ℤ
saturating_add a n =
    if int_leb (add_nat a n) (pos 2_147_483_647) then add_nat a n else pos 2_147_483_647
