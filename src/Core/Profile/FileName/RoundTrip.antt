-- ===== src/Core/Profile/FileName/RoundTrip.antt =====
-- A profile's file gives its network back (crates/caw-core/src/profile.rs).
use caw.Prelude.{
  ℕ, ◌+◌, ◌-◌, ◌*◌, ◌/◌, ◌%◌, ◌<◌, ◌≤◌, true, false, List, [], ◌∷◌, ◌++◌, some, ◌==◌, leb, length,
  is_empty, ◌≡◌, refl, arith, All, Bool-cases, inl, inr, take-append, drop-append, length-append,
}
use caw.Prelude.Words.{bytes_eq_self, IsByte}
use caw.Core.Profile.FileName.{
  extension, is_plain, hex_digit, escape, stem_of, file_name, to_digit, from_str_radix, push,
  unescape, strip_suffix, non_empty, ssid_from_file_name,
}

le→leb : (a b : ℕ) → a ≤ b → leb a b ≡ true
le→leb a b h = ground arith

to_digit-hex_digit : (n : ℕ) → n < 16 → to_digit (hex_digit n) ≡ some n
unfolding to_digit hex_digit
to_digit-hex_digit n h = ground arith

hex_digit-unsigned : (n : ℕ) → (hex_digit n == 43) ≡ false
unfolding hex_digit
hex_digit-unsigned n = ground arith

from_str_radix-hex_digit :
    (b : ℕ) → IsByte b → from_str_radix (hex_digit (b / 16)) (hex_digit (b % 16)) ≡ some b
unfolding from_str_radix
from_str_radix-hex_digit b h =
    let whole : b / 16 * 16 + b % 16 ≡ b = omega arith in
    rw
      (
        hex_digit-unsigned (b / 16),
        to_digit-hex_digit (b / 16) (omega arith),
        to_digit-hex_digit (b % 16) (omega arith),
        whole,
      )
      refl

-- A plain byte is kept.
unescape-plain :
    (b : ℕ) (rest : List ℕ) → is_plain b ≡ true → unescape (b ∷ rest) ≡ push (unescape rest) b
unfolding unescape
unescape-plain b [] h = rw h refl
unescape-plain b (c ∷ []) h = rw (unescape, h) refl
unescape-plain b (c ∷ d ∷ rest) h = rw (unescape, h) refl

-- An escaped one is read back.
unescape-escape :
    (b : ℕ) (rest : List ℕ) → IsByte b → unescape (escape b ++ rest) ≡ push (unescape rest) b
unfolding unescape escape is_plain
unescape-escape b rest h = rw (from_str_radix-hex_digit b h) refl

unescape-stem_of : (ssid : List ℕ) → All IsByte ssid → unescape (stem_of ssid) ≡ some ssid
unfolding stem_of unescape
unescape-stem_of [] h = refl
unescape-stem_of (b ∷ ssid) h = elim (Bool-cases (is_plain b)) [
  | inl plain ↦ rw (plain, unescape-plain b (stem_of ssid) plain, unescape-stem_of ssid (h.1)) refl
  | inr special ↦
      rw (special, unescape-escape b (stem_of ssid) (h.0), unescape-stem_of ssid (h.1)) refl
]

strip_suffix-append : (stem suffix : List ℕ) → strip_suffix (stem ++ suffix) suffix ≡ some stem
unfolding strip_suffix
strip_suffix-append stem suffix =
    let keep : length (stem ++ suffix) - length suffix ≡ length stem =
      omega (arith, length-append stem suffix) in
    let long : leb (length suffix) (length (stem ++ suffix)) ≡ true =
      le→leb (length suffix) (length (stem ++ suffix)) (omega (arith, length-append stem suffix)) in
    rw
      (
        long,
        keep,
        drop-append (length stem) stem suffix refl,
        take-append (length stem) stem suffix refl,
        bytes_eq_self suffix,
      )
      refl

-- The name of the file of a network gives the network's SSID back, for every SSID of at least one
-- byte.
pub ssid_from_file_name-file_name :
    (ssid : List ℕ)
    → All IsByte ssid
    → is_empty ssid ≡ false
    → ssid_from_file_name (file_name ssid) ≡ some ssid
unfolding ssid_from_file_name file_name non_empty
ssid_from_file_name-file_name ssid bytes some_byte =
    rw (strip_suffix-append (stem_of ssid) extension, unescape-stem_of ssid bytes, some_byte) refl
