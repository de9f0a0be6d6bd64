-- ===== src/Ipc/Frame/Lines.antt =====
-- The lines of a stream (crates/caw-ipc/src/frame.rs).
use caw.Prelude.{
  ℕ, ◌≤◌, ◌<◌, true, false, List, [], ◌∷◌, ◌++◌, ◌==◌, if◌then◌else◌, none, some, length, ◌≡◌, refl,
  ap, ◌∙◌, arith, Bool-cases, inl, inr, Option-cases, All,
}
use caw.Ipc.Frame.{newline, split_line}

-- A byte in front of a stream that is split into its complete lines and the rest.
unfoldable pub put : ℕ → List (List ℕ) × List ℕ → List (List ℕ) × List ℕ
put b ([], rest) = ([], b ∷ rest)
put b (line ∷ lines, rest) = ((b ∷ line) ∷ lines, rest)

unfoldable pub split_all : List ℕ → List (List ℕ) × List ℕ
split_all [] = ([], [])
split_all (b ∷ bytes) =
    let tail = split_all bytes in if b == newline then ([] ∷ tail.0, tail.1) else put b tail

-- The complete lines, and what follows the last newline.
abbrev pub lines_of : List ℕ → List (List ℕ)
lines_of bytes = (split_all bytes).0

abbrev pub rest_of : List ℕ → List ℕ
rest_of bytes = (split_all bytes).1

pub split_all-newline :
    (b : ℕ) (bytes : List ℕ)
    → (b == newline) ≡ true
    → split_all (b ∷ bytes) ≡ ([] ∷ lines_of bytes, rest_of bytes)
unfolding split_all
split_all-newline b bytes here = rw here refl

pub split_all_other :
    (b : ℕ) (bytes : List ℕ)
    → (b == newline) ≡ false
    → split_all (b ∷ bytes) ≡ put b (split_all bytes)
unfolding split_all
split_all_other b bytes not_here = rw not_here refl

pub split_line-none : (bytes : List ℕ) → split_line bytes ≡ none → split_all bytes ≡ ([], bytes)
unfolding split_line split_all put
split_line-none [] h = refl
split_line-none (b ∷ bytes) h = elim (Bool-cases (b == newline)) [
  | inl here ↦ absurd (ground arith)
  | inr not_here ↦ elim (Option-cases (split_line bytes)) [
    | inl nothing ↦ rw (not_here, split_line-none bytes nothing) refl
    | inr (pair, found) ↦ absurd (ground arith)
  ]
]

pub split_line-some :
    (bytes line rest : List ℕ)
    → split_line bytes ≡ some (line, rest)
    → (split_all bytes ≡ (line ∷ lines_of rest, rest_of rest)) × (length rest < length bytes)
unfolding split_line split_all put
split_line-some [] line rest h = cc h
split_line-some (b ∷ bytes) line rest h = elim (Bool-cases (b == newline)) [
  | inl here ↦
      let same : bytes ≡ rest = ground arith in
      let empty : [] ≡ line = ground arith in rw (here, ← same, ← empty) (refl, omega arith)
  | inr not_here ↦ elim (Option-cases (split_line bytes)) [
    | inl nothing ↦ absurd (ground arith)
    | inr ((l, r), found) ↦
        let deeper : (split_all bytes ≡ (l ∷ (split_all r).0, (split_all r).1))
            × (length r < length bytes) =
          split_line-some bytes l r found in
        let same : r ≡ rest = ground arith in
        let longer : b ∷ l ≡ line = ground arith in
        rw (not_here, deeper.0, ← same, ← longer) (refl, omega arith)
  ]
]

split_all_nil :
    (back : List ℕ)
    → split_all back ≡ (lines_of [] ++ lines_of (rest_of [] ++ back), rest_of (rest_of [] ++ back))
unfolding split_all
split_all_nil back = refl

put-append :
    (b : ℕ) (parts : List (List ℕ) × List ℕ) (back : List ℕ)
    → (b == newline) ≡ false
    → put b (parts.0 ++ lines_of (parts.1 ++ back), rest_of (parts.1 ++ back))
      ≡ ((put b parts).0 ++ lines_of ((put b parts).1 ++ back), rest_of ((put b parts).1 ++ back))
unfolding put
put-append b ([], rest) back not_here = rw (split_all_other b (rest ++ back) not_here) refl
put-append b (line ∷ lines, rest) back not_here = refl

-- A stream in two parts: what the first leaves is continued by the second.
pub split_all-append :
    (front back : List ℕ)
    → split_all (front ++ back)
      ≡ (lines_of front ++ lines_of (rest_of front ++ back), rest_of (rest_of front ++ back))
split_all-append [] back = split_all_nil back
split_all-append (b ∷ front) back = elim (Bool-cases (b == newline)) [
  | inl here ↦
      let first : split_all (b ∷ front) ≡ ([] ∷ lines_of front, rest_of front) =
        split_all-newline b front here in
      split_all-newline b (front ++ back) here
      ∙ rw
          (
            ap (λ parts. parts.0) (split_all-append front back),
            ap (λ parts. parts.1) (split_all-append front back),
            ap (λ parts. parts.0) first,
            ap (λ parts. parts.1) first,
          )
          refl
  | inr not_here ↦
      let first : split_all (b ∷ front) ≡ put b (split_all front) =
        split_all_other b front not_here in
      split_all_other b (front ++ back) not_here
      ∙ rw
          (
            ap (λ parts. parts.0) (split_all-append front back),
            ap (λ parts. parts.1) (split_all-append front back),
            ap (λ parts. parts.0) first,
            ap (λ parts. parts.1) first,
          )
          (put-append b (split_all front) back not_here)
]

put-rest :
    (b : ℕ) (parts : List (List ℕ) × List ℕ)
    → (b == newline) ≡ false
    → split_all parts.1 ≡ ([], parts.1)
    → split_all (put b parts).1 ≡ ([], (put b parts).1)
unfolding put
put-rest b ([], rest) not_here h = split_all_other b rest not_here ∙ ap (λ parts. put b parts) h
put-rest b (line ∷ lines, rest) not_here h = h

-- What is held back has no newline.
pub split_all-rest_of : (bytes : List ℕ) → split_all (rest_of bytes) ≡ ([], rest_of bytes)
unfolding split_all
split_all-rest_of [] = split_all_nil []
split_all-rest_of (b ∷ bytes) = elim (Bool-cases (b == newline)) [
  | inl here ↦ rw (ap (λ parts. parts.1) (split_all-newline b bytes here)) (split_all-rest_of bytes)
  | inr not_here ↦
      rw (ap (λ parts. parts.1) (split_all_other b bytes not_here))
        (put-rest b (split_all bytes) not_here (split_all-rest_of bytes))
]

-- A line with its newline in front of a stream.
pub split_all-line :
    (line bytes : List ℕ)
    → All (λ b. (b == newline) ≡ false) line
    → split_all (line ++ (newline ∷ bytes)) ≡ (line ∷ lines_of bytes, rest_of bytes)
unfolding put
split_all-line [] bytes h = split_all-newline newline bytes refl
split_all-line (b ∷ line) bytes h =
    split_all_other b (line ++ (newline ∷ bytes)) (h.0)
    ∙ ap (λ parts. put b parts) (split_all-line line bytes (h.1))

-- After every read the unfinished line is within the limit.
abbrev pub IsWithin : ℕ → List ℕ → List (List ℕ) → Type 0
IsWithin limit held [] = Unit {0}
IsWithin limit held (chunk ∷ chunks) =
    (length (rest_of (held ++ chunk)) ≤ limit) × IsWithin limit (rest_of (held ++ chunk)) chunks

abbrev pub concat : List (List ℕ) → List ℕ
concat [] = []
concat (chunk ∷ chunks) = chunk ++ concat chunks
