-- ===== src/Dhcp/Mask.antt =====
-- Subnet masks and prefix lengths (crates/caw-dhcp/src/lib.rs).
use caw.Prelude.{
  ℕ, zero, suc, ◌+◌, ◌-◌, ◌*◌, ◌%◌, ◌^◌, ◌≤◌, ◌≡◌, refl, ◌↔◌, Bool, true, Option, none, some, ◌==◌,
  ◌&&◌, leb, if◌then◌else◌, arith,
}
use caw.Prelude.Words.{u32_max}
use caw.Prelude.Bits.{
  leading_ones, count_ones, leading_ones-le, ones_are_leading, holds_below, holds_below-at,
}
use caw.Dhcp.Addr.{
  Ipv4Addr, unspecified, to_bits, from_bits, IsAddr, from_bits-to_bits, to_bits-IsU32,
}

unfoldable pub prefix_len_from_mask : Ipv4Addr → Option ℕ
prefix_len_from_mask mask =
    let len = leading_ones 32 (to_bits mask) in
    if count_ones 32 (to_bits mask) == len then some len else none

-- `u32::MAX << (32 - prefix_len)` drops what is shifted out of the word.
unfoldable pub mask_from_prefix_len : ℕ → Option Ipv4Addr
mask_from_prefix_len len =
    if len == 0
    then some unspecified
    else if leb len 32
    then some (from_bits (u32_max * 2 ^ (32 - len) % 4_294_967_296))
    else none

abbrev shifted_ones : ℕ → ℕ
shifted_ones len = u32_max * 2 ^ (32 - len) % 4_294_967_296

-- Every length of a prefix, by evaluation.
abbrev reads_back : ℕ → Bool
reads_back len =
    (count_ones 32 (to_bits (from_bits (shifted_ones len))) == len)
    && ((leading_ones 32 (to_bits (from_bits (shifted_ones len))) == len)
        && (shifted_ones len + 2 ^ (32 - len) == 4_294_967_296))

reads_back_table : holds_below 33 reads_back ≡ true
unfolding holds_below count_ones leading_ones
reads_back_table = refl

module _ (n : ℕ) (h : n ≤ 32) where
  read_back :
      (count_ones 32 (to_bits (from_bits (shifted_ones n))) ≡ n)
      × (leading_ones 32 (to_bits (from_bits (shifted_ones n))) ≡ n)
      × (shifted_ones n + 2 ^ (32 - n) ≡ 4_294_967_296)
  read_back =
      let t : reads_back n ≡ true = holds_below-at 33 reads_back n reads_back_table (omega arith) in
      ground arith

mask_of_len : (n : ℕ) → n ≤ 32 → mask_from_prefix_len n ≡ some (from_bits (shifted_ones n))
unfolding mask_from_prefix_len
mask_of_len zero h = refl
mask_of_len (suc n) h = ground arith

mask_len_bound : (n : ℕ) (m : Ipv4Addr) → mask_from_prefix_len n ≡ some m → n ≤ 32
unfolding mask_from_prefix_len
mask_len_bound n m h = ground arith

prefix_len_of_mask :
    (n : ℕ) (m : Ipv4Addr) → mask_from_prefix_len n ≡ some m → prefix_len_from_mask m ≡ some n
unfolding prefix_len_from_mask
prefix_len_of_mask n m h =
    let small = mask_len_bound n m h in
    let (ones, lead, _) = read_back n small in
    let e : from_bits (shifted_ones n) ≡ m = cc (mask_of_len n small) in rw (← e) (ground arith)

prefix_len_ones :
    (m : Ipv4Addr) (n : ℕ)
    → prefix_len_from_mask m ≡ some n
    → (count_ones 32 (to_bits m) ≡ n) × (leading_ones 32 (to_bits m) ≡ n)
unfolding prefix_len_from_mask
prefix_len_ones m n h = ground arith

mask_of_prefix_len :
    (n : ℕ) (m : Ipv4Addr)
    → IsAddr m
    → prefix_len_from_mask m ≡ some n
    → mask_from_prefix_len n ≡ some m
mask_of_prefix_len n m v h =
    let (ones, lead) = prefix_len_ones m n h in
    let small : n ≤ 32 = omega (arith, leading_ones-le 32 (to_bits m)) in
    let top = ones_are_leading 32 (to_bits m) (to_bits-IsU32 m v) (omega arith) in
    let top' : to_bits m + 2 ^ (32 - n) ≡ 4_294_967_296 = rw lead at top in
    let same : shifted_ones n ≡ to_bits m = omega (arith, (read_back n small).2) in
    rw (mask_of_len n small, same, from_bits-to_bits m v)

-- A mask has the prefix length `n` exactly when `n` describes that mask: the two conversions are
-- inverse to one another, on every mask of four bytes and every number.
pub prefix_len-mask_iff :
    (n : ℕ) (m : Ipv4Addr)
    → IsAddr m
    → (prefix_len_from_mask m ≡ some n) ↔ (mask_from_prefix_len n ≡ some m)
prefix_len-mask_iff n m v = (mask_of_prefix_len n m v, prefix_len_of_mask n m)
