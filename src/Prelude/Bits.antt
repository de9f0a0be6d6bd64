-- ===== src/Prelude/Bits.antt =====
-- Words by their bits: tables of a predicate, and the counts of ones.
use Prim.Native.Nat.{ℕ, zero, suc, ◌<◌, ◌≤◌, ◌-◌, ◌%◌, ◌/◌, ◌+◌, ◌^◌}
use mathlib.Core.Path.{◌≡◌, refl}
use mathlib.Core.Bool.{Bool, true, ◌&&◌}
use native.Mathlib.Omega.{arith}
use mathlib.Core.Logic.{◌⊎◌, inl, inr}
use native.Mathlib.Decide.{dec_le}
use native.Mathlib.Nat.{pow-suc, suc-sub-suc, sub-zero, mod-lt}
use caw.Prelude.Tests.{leb, if◌then◌else◌}

-- A test passes on every number below a bound; a literal bound is evaluated.
unfoldable pub holds_below : ℕ → (ℕ → Bool) → Bool
holds_below (suc last) test = holds_below last test && test last
holds_below zero test = true

pub holds_below-at :
    (bound : ℕ) (test : ℕ → Bool) (k : ℕ)
    → holds_below bound test ≡ true
    → k < bound
    → test k ≡ true
unfolding holds_below
holds_below-at (suc last) test k passes small = ground (arith, holds_below-at last test k)
holds_below-at zero test k passes small = absurd (omega arith)

-- `u32::leading_ones` and `u32::count_ones`, for a word of `w` bits from its top bit down.
unfoldable pub leading_ones : ℕ → ℕ → ℕ
leading_ones zero x = 0
leading_ones (suc w) x =
    let rest = leading_ones w (x % 2 ^ w) in if leb (2 ^ w) x then suc rest else 0

unfoldable pub count_ones : ℕ → ℕ → ℕ
count_ones zero x = 0
count_ones (suc w) x = x / 2 ^ w + count_ones w (x % 2 ^ w)

pub leading_ones-le : (w x : ℕ) → leading_ones w x ≤ w
unfolding leading_ones
leading_ones-le zero x = omega arith
leading_ones-le (suc w) x = ground (arith, leading_ones-le w (x % 2 ^ w))

abbrev TopBit : ℕ → ℕ → Type 0
TopBit p x = ((p ≤ x) × (x / p ≡ 1) × (x % p ≡ x - p)) ⊎ ((x < p) × (x / p ≡ 0) × (x % p ≡ x))

top_bit : (p x : ℕ) → x < p + p → TopBit p x
top_bit p x h = elim (dec_le p x) [
  | yes q ↦ inl (q, grind arith, grind arith)
  | no q ↦ inr (omega arith, grind arith, grind arith)
]

pow_pos : (w : ℕ) → 0 < 2 ^ w
pow_pos zero = omega arith
pow_pos (suc w) = omega (arith, pow-suc 2 w, pow_pos w)

double : (w : ℕ) → 2 ^ suc w ≡ 2 ^ w + 2 ^ w
double w = omega (arith, pow-suc 2 w)

count_ones_zero : (w x : ℕ) → x < 2 ^ w → count_ones w x ≡ 0 → x ≡ 0
unfolding count_ones
count_ones_zero zero x h e = omega arith
count_ones_zero (suc w) x h e =
    ground (arith, top_bit (2 ^ w) x (omega (arith, double w)), count_ones_zero w (x % 2 ^ w))

leading_ones_top : (w x : ℕ) → 2 ^ w ≤ x → leading_ones (suc w) x ≡ suc (leading_ones w (x % 2 ^ w))
unfolding leading_ones
leading_ones_top w x h = ground arith

leading_ones_low : (w x : ℕ) → x < 2 ^ w → leading_ones (suc w) x ≡ 0
unfolding leading_ones
leading_ones_low w x h = ground arith

count_ones-suc : (w x : ℕ) → count_ones (suc w) x ≡ x / 2 ^ w + count_ones w (x % 2 ^ w)
unfolding count_ones
count_ones-suc w x = refl

ones_are_leading_step :
    (w x : ℕ)
    → x < 2 ^ w + 2 ^ w
    → TopBit (2 ^ w) x
    → (count_ones w (x % 2 ^ w) ≡ leading_ones w (x % 2 ^ w)
        → x % 2 ^ w + 2 ^ (w - leading_ones w (x % 2 ^ w)) ≡ 2 ^ w)
    → count_ones (suc w) x ≡ leading_ones (suc w) x
    → x + 2 ^ (suc w - leading_ones (suc w) x) ≡ 2 ^ w + 2 ^ w
ones_are_leading_step w x h (inl (q, d, m)) ih e =
    let low = ih (omega (arith, count_ones-suc w x, leading_ones_top w x q)) in
    rw (leading_ones_top w x q, suc-sub-suc) (omega arith)
ones_are_leading_step w x h (inr (q, d, m)) ih e =
    let none_low : x % 2 ^ w ≡ 0 =
      count_ones_zero w (x % 2 ^ w) (omega arith)
        (omega (arith, count_ones-suc w x, leading_ones_low w x q)) in
    rw (leading_ones_low w x q, sub-zero) (omega (arith, double w))

-- Where all ones lead, the word is the ones above and zeros below.
pub ones_are_leading :
    (w x : ℕ)
    → x < 2 ^ w
    → count_ones w x ≡ leading_ones w x
    → x + 2 ^ (w - leading_ones w x) ≡ 2 ^ w
unfolding leading_ones
ones_are_leading zero x h e = omega arith
ones_are_leading (suc w) x h e =
    let below : x < 2 ^ w + 2 ^ w = omega (arith, double w) in
    omega (
      arith,
      double w,
      ones_are_leading_step w x below (top_bit (2 ^ w) x below)
          (ones_are_leading w (x % 2 ^ w) (mod-lt x (pow_pos w))) e,
    )
