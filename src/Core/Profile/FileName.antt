-- ===== src/Core/Profile/FileName.antt =====
-- The file that a profile is kept in (crates/caw-core/src/profile.rs, `file_name`,
-- `ssid_from_file_name`). A name is its bytes.
pub mod RoundTrip
mod Examples
use caw.Prelude.{
  ℕ, ◌+◌, ◌-◌, ◌*◌, ◌/◌, ◌%◌, Bool, true, false, ◌&&◌, ◌||◌, List, [], ◌∷◌, ◌++◌, Option, none,
  some, if◌then◌else◌, ◌==◌, leb, ltb, length, take, drop, is_empty,
}
use caw.Prelude.Words.{bytes_eq}

-- `.json`
abbrev pub extension : List ℕ
extension = 46 ∷ 106 ∷ 115 ∷ 111 ∷ 110 ∷ []

-- A letter, a digit, `-` or `_`.
unfoldable pub is_plain : ℕ → Bool
is_plain b =
    (leb 65 b && leb b 90)
    || ((leb 97 b && leb b 122) || ((leb 48 b && leb b 57) || (b == 45 || b == 95)))

-- `{:X}` of a number below 16.
unfoldable pub hex_digit : ℕ → ℕ
hex_digit n = if ltb n 10 then 48 + n else 55 + n

unfoldable pub escape : ℕ → List ℕ
escape b = 37 ∷ hex_digit (b / 16) ∷ hex_digit (b % 16) ∷ []

unfoldable pub stem_of : List ℕ → List ℕ
stem_of [] = []
stem_of (b ∷ ssid) = (if is_plain b then b ∷ [] else escape b) ++ stem_of ssid

unfoldable pub file_name : List ℕ → List ℕ
file_name ssid = stem_of ssid ++ extension

-- `char::to_digit(16)`
unfoldable pub to_digit : ℕ → Option ℕ
to_digit c =
    if leb 48 c && leb c 57
    then some (c - 48)
    else if leb 65 c && leb c 70
    then some (c - 55)
    else if leb 97 c && leb c 102
    then some (c - 87)
    else none

abbrev pub and_then : {A : Type 0} → {B : Type 0} → Option A → (A → Option B) → Option B
and_then none f = none
and_then (some a) f = f a

-- `u8::from_str_radix(_, 16)` of two characters, which takes a sign.
unfoldable pub from_str_radix : ℕ → ℕ → Option ℕ
from_str_radix a b =
    if a == 43
    then to_digit b
    else and_then (to_digit a) (λ high. and_then (to_digit b) (λ low. some (high * 16 + low)))

abbrev pub push : Option (List ℕ) → ℕ → Option (List ℕ)
push rest b = and_then rest (λ bytes. some (b ∷ bytes))

-- The loop. `%` needs two characters after it.
unfoldable pub unescape : List ℕ → Option (List ℕ)
unescape [] = some []
unescape (c ∷ []) = if is_plain c then some (c ∷ []) else none
unescape (c ∷ d ∷ []) = elim (is_plain c) [ true ↦ push (unescape (d ∷ [])) c | false ↦ none ]
unescape (c ∷ d ∷ e ∷ rest) = elim (is_plain c) [
  | true ↦ push (unescape (d ∷ e ∷ rest)) c
  | false ↦ if c == 37 then and_then (from_str_radix d e) (push (unescape rest)) else none
]

unfoldable pub strip_suffix : List ℕ → List ℕ → Option (List ℕ)
strip_suffix name suffix =
    let keep = length name - length suffix in
    if leb (length suffix) (length name) && bytes_eq (drop keep name) suffix
    then some (take keep name)
    else none

unfoldable pub non_empty : List ℕ → Option (List ℕ)
non_empty out = if is_empty out then none else some out

unfoldable pub ssid_from_file_name : List ℕ → Option (List ℕ)
ssid_from_file_name name =
    and_then (strip_suffix name extension) (λ stem. and_then (unescape stem) non_empty)
