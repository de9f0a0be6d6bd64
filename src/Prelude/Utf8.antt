-- ===== src/Prelude/Utf8.antt =====
-- Rust's `String` as its bytes: the standard library's split of a byte string into valid parts
-- and maximal invalid ones, `String::from_utf8_lossy`, and the strings that are valid UTF-8.
use Prim.Native.Nat.{ℕ, zero, suc, ◌≤◌, ◌<◌}
use mathlib.Core.Path.{◌≡◌, refl, ap, ◌∙◌}
use mathlib.Core.Bool.{Bool, true, false, ◌&&◌}
use mathlib.Core.List.{List, [], ◌∷◌, ◌++◌}
use native.Mathlib.Omega.{arith}
use caw.Prelude.Tests.{leb, ltb, ◌==◌, if◌then◌else◌}
use caw.Prelude.Lists.{take, drop, get_or, length, length-drop, take-append-drop}

-- A character of so many bytes, or so many bytes that are no character.
pub data Piece : Type 0 where
  char : ℕ → Piece
  broken : ℕ → Piece

abbrev between : ℕ → ℕ → ℕ → Bool
between lo hi b = leb lo b && leb b hi

-- The second byte that may follow a first byte of a long character.
second : ℕ → ℕ → Bool
second b c =
    if b == 0xe0
    then between 0xa0 0xbf c
    else if b == 0xed
    then between 0x80 0x9f c
    else if b == 0xf0
    then between 0x90 0xbf c
    else if b == 0xf4
    then between 0x80 0x8f c
    else between 0x80 0xbf c

-- The bytes behind the end count as 0, which continues nothing.
piece : ℕ → List ℕ → Piece
unfolding second
piece b rest =
    let c1 = get_or rest 0 0 in
    let c2 = get_or rest 1 0 in
    let c3 = get_or rest 2 0 in
    if ltb b 0x80
    then char 1
    else if between 0xc2 0xdf b
    then (if second b c1 then char 2 else broken 1)
    else if between 0xe0 0xef b
    then (if second b c1 then if second 0x80 c2 then char 3 else broken 2 else broken 1)
    else if between 0xf0 0xf4 b
    then (if second b c1
        then if second 0x80 c2 then if second 0x80 c3 then char 4 else broken 3 else broken 2
        else broken 1)
    else broken 1

-- U+FFFD.
abbrev replacement : List ℕ
replacement = 0xef ∷ 0xbf ∷ 0xbd ∷ []

-- A piece takes one byte at least, so as many rounds as there are bytes are enough.
lossy_loop : ℕ → List ℕ → List ℕ
lossy_loop zero s = []
lossy_loop (suc fuel) [] = []
lossy_loop (suc fuel) (b ∷ rest) = elim (piece b rest) [
  | char n ↦ take n (b ∷ rest) ++ lossy_loop fuel (drop n (b ∷ rest))
  | broken n ↦ replacement ++ lossy_loop fuel (drop n (b ∷ rest))
]

unfoldable pub from_utf8_lossy : List ℕ → List ℕ
unfolding lossy_loop piece
from_utf8_lossy s = lossy_loop (length s) s

utf8_loop : ℕ → List ℕ → Bool
utf8_loop zero s = true
utf8_loop (suc fuel) [] = true
utf8_loop (suc fuel) (b ∷ rest) = elim (piece b rest) [
  | char n ↦ utf8_loop fuel (drop n (b ∷ rest))
  | broken n ↦ false
]

-- What every Rust `String` holds: characters from end to end.
unfoldable pub is_utf8 : List ℕ → Bool
unfolding utf8_loop piece
is_utf8 s = utf8_loop (length s) s

-- A character has one byte at least.
piece_pos : (b n : ℕ) (rest : List ℕ) → piece b rest ≡ char n → 0 < n
unfolding piece
piece_pos b n rest h = ground arith

-- One round of both loops at a piece `p`.
lossy_round :
    (fuel b : ℕ) (rest : List ℕ) (p : Piece)
    → piece b rest ≡ p
    → ((s : List ℕ) → length s ≤ fuel → utf8_loop fuel s ≡ true → lossy_loop fuel s ≡ s)
    → length rest ≤ fuel
    → utf8_loop (suc fuel) (b ∷ rest) ≡ true
    → lossy_loop (suc fuel) (b ∷ rest) ≡ b ∷ rest
unfolding lossy_loop utf8_loop
lossy_round fuel b rest (broken n) e ih h v = cc (rw (e, utf8_loop) at v)
lossy_round fuel b rest (char n) e ih h v =
    rw (e, lossy_loop)
      (ap (λ t. take n (b ∷ rest) ++ t)
          (ih (drop n (b ∷ rest)) (omega (arith, piece_pos b n rest e, length-drop n (b ∷ rest)))
            (rw (e, utf8_loop) at v))
        ∙ take-append-drop n (b ∷ rest))

lossy_loop-utf8 :
    (fuel : ℕ) (s : List ℕ) → length s ≤ fuel → utf8_loop fuel s ≡ true → lossy_loop fuel s ≡ s
unfolding lossy_loop utf8_loop
lossy_loop-utf8 zero [] h v = refl
lossy_loop-utf8 zero (b ∷ rest) h v = absurd (omega arith)
lossy_loop-utf8 (suc fuel) [] h v = refl
lossy_loop-utf8 (suc fuel) (b ∷ rest) h v =
    lossy_round fuel b rest (piece b rest) refl (lossy_loop-utf8 fuel) (omega arith) v

-- Decoding leaves valid text alone.
pub from_utf8_lossy_id : (s : List ℕ) → is_utf8 s ≡ true → from_utf8_lossy s ≡ s
unfolding from_utf8_lossy is_utf8
from_utf8_lossy_id s h = lossy_loop-utf8 (length s) s (omega arith) h

corvus :
    from_utf8_lossy (b'a' ∷ 0xff ∷ 0xe2 ∷ 0x82 ∷ 0xac ∷ 0xe2 ∷ 0x82 ∷ [])
    ≡ b'a' ∷ 0xef ∷ 0xbf ∷ 0xbd ∷ 0xe2 ∷ 0x82 ∷ 0xac ∷ 0xef ∷ 0xbf ∷ 0xbd ∷ []
unfolding from_utf8_lossy
corvus = refl
