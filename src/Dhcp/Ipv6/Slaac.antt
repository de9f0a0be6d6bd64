-- ===== src/Dhcp/Ipv6/Slaac.antt =====
-- Which prefix gives an interface an address, and that the address tells both apart
-- (crates/caw-dhcp/src/ipv6.rs, `slaac` and `eui64_interface_id`).
use caw.Prelude.{
  ℕ, ◌≡◌, refl, Bool, true, ◌&&◌, if◌then◌else◌, length-append, List, [], ◌∷◌, ◌++◌, ◌==◌, ==_iff,
  Option, none, some, length, take, drop, arith, bit_xor, take-append, drop-append, length-take,
  ◌∙◌,
}
use caw.Prelude.Words.{IsByte}
use caw.Prelude.Bits.{holds_below, holds_below-at}
use caw.Dhcp.Ipv6.{Mac, PrefixInfo, slaac, slaac_address, eui64_interface_id}

-- Inverting the universal/local bit twice gives a byte back.
abbrev flips_back : ℕ → Bool
flips_back b = bit_xor (bit_xor b 2) 2 == b

flips_table : holds_below 256 flips_back ≡ true
unfolding holds_below
flips_table = refl

flip_inverse : (b : ℕ) → IsByte b → bit_xor (bit_xor b 2) 2 ≡ b
flip_inverse b h =
    (==_iff (bit_xor (bit_xor b 2) 2) b).0 (holds_below-at 256 flips_back b flips_table h)

-- The MAC that an interface identifier was formed from.
abbrev pub mac_of : List ℕ → Option Mac
mac_of (a ∷ b ∷ c ∷ x ∷ y ∷ d ∷ e ∷ f ∷ []) =
    if x == 0xff && y == 0xfe
    then some (record { m0 = bit_xor a 2; m1 = b; m2 = c; m3 = d; m4 = e; m5 = f })
    else none
mac_of _ = none

mac_of-eui64_interface_id : (m : Mac) → IsByte m.m0 → mac_of (eui64_interface_id m) ≡ some m
unfolding eui64_interface_id
mac_of-eui64_interface_id m h = rw (flip_inverse m.m0 h)

-- An address that a prefix gives the interface `mac`.
pub record IsSlaacAddress (p : PrefixInfo) (mac : Mac) (a : List ℕ) : Type 0 where
  pub may_be_used : p.autonomous ≡ true
  pub is_64 : p.prefix_len ≡ 64
  pub in_prefix : take 8 a ≡ take 8 p.prefix
  pub whole : length a ≡ 16
  pub identifies : mac_of (drop 8 a) ≡ some mac

length-eui64 : (m : Mac) → length (eui64_interface_id m) ≡ 8
unfolding eui64_interface_id
length-eui64 m = refl

parts :
    (p : PrefixInfo) (mac : Mac) (a : List ℕ)
    → slaac p mac ≡ some a
    → (p.autonomous ≡ true) × (p.prefix_len ≡ 64) × (a ≡ take 8 p.prefix ++ eui64_interface_id mac)
unfolding slaac slaac_address
parts p mac a h = ground arith

-- An address that a prefix of 16 octets gives an interface, whose MAC begins with a byte, comes
-- from a prefix that may be used for addresses and has 64 bits, lies in the prefix, has 16
-- octets, and its last 8 determine the MAC.
pub slaac-IsSlaacAddress :
    (p : PrefixInfo) (mac : Mac) (a : List ℕ)
    → length p.prefix ≡ 16
    → IsByte mac.m0
    → slaac p mac ≡ some a
    → IsSlaacAddress p mac a
slaac-IsSlaacAddress p mac a len byte h =
    let (auto, is_64, shape) = parts p mac a h in
    let half : length (take 8 p.prefix) ≡ 8 = omega (arith, length-take 8 p.prefix) in
    let whole : length a ≡ 16 =
      rw shape
        (length-append (take 8 p.prefix) (eui64_interface_id mac) ∙ rw (half, length-eui64 mac)) in
    record {
      may_be_used = auto;
      is_64 = is_64;
      in_prefix = rw shape (take-append 8 (take 8 p.prefix) (eui64_interface_id mac) half);
      whole = whole;
      identifies =
          rw (shape, drop-append 8 (take 8 p.prefix) (eui64_interface_id mac) half)
            (mac_of-eui64_interface_id mac byte);
    }
