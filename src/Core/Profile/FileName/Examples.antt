-- ===== src/Core/Profile/FileName/Examples.antt =====
-- The file of a network named `a/b` (crates/caw-core/src/profile.rs).
use caw.Prelude.{ℕ, List, [], ◌∷◌, ◌≡◌, refl, some, arith}
use caw.Core.Profile.FileName.{
  file_name, ssid_from_file_name, stem_of, is_plain, escape, hex_digit, unescape, from_str_radix,
  to_digit, strip_suffix, non_empty,
}
use caw.Core.Profile.FileName.RoundTrip.{ssid_from_file_name-file_name}

abbrev ssid : List ℕ
ssid = 97 ∷ 47 ∷ 98 ∷ []

-- `a%2Fb.json`
abbrev name : List ℕ
name = 97 ∷ 37 ∷ 50 ∷ 70 ∷ 98 ∷ 46 ∷ 106 ∷ 115 ∷ 111 ∷ 110 ∷ []

escapes_slash : file_name ssid ≡ name
unfolding file_name stem_of is_plain escape hex_digit
escapes_slash = refl

-- `%+A.json` is read as a network too, though no network is kept there.
takes_sign : ssid_from_file_name (37 ∷ 43 ∷ 65 ∷ 46 ∷ 106 ∷ 115 ∷ 111 ∷ 110 ∷ []) ≡ some (10 ∷ [])
unfolding ssid_from_file_name strip_suffix unescape is_plain from_str_radix to_digit non_empty
takes_sign = refl

ssid_from_file_name-file_name_example : ssid_from_file_name (file_name ssid) ≡ some ssid
ssid_from_file_name-file_name_example =
    ssid_from_file_name-file_name ssid (omega arith, (omega arith, (omega arith, tt))) refl
