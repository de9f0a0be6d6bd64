-- ===== src/Ipc/Frame.antt =====
-- Newline-delimited messages (crates/caw-ipc/src/frame.rs, `Decoder`, `encode`). JSON belongs to
-- another package: `parse` reads a line, and a value is written as `json`.
pub mod Lines
pub mod Chunks
pub mod RoundTrip
mod Examples
use caw.Prelude.{
  ℕ, zero, suc, ◌+◌, Bool, true, false, ◌||◌, ◌&&◌, List, [], ◌∷◌, ◌++◌, ◌==◌, ltb, leb,
  if◌then◌else◌, Option, none, some, Result, ok, err, length,
}

abbrev pub newline : ℕ
newline = 10

abbrev pub carriage_return : ℕ
carriage_return = 13

abbrev pub max_line : ℕ
max_line = 1_048_576

pub data Error (E : Type 0) : Type 0 where
  json : E → Error E
  too_long : Error E

pub record Decoder : Type 0 where
  pub buf : List ℕ
  pub limit : ℕ

unfoldable pub with_limit : ℕ → Decoder
with_limit limit = record { buf = []; limit = limit }

unfoldable pub extend : Decoder → List ℕ → Decoder
extend d chunk = record d { buf = d.buf ++ chunk }

unfoldable pub pending : Decoder → ℕ
pending d = length d.buf

-- `u8::is_ascii_whitespace`
unfoldable pub is_ascii_whitespace : ℕ → Bool
is_ascii_whitespace b = b == 32 || (b == 9 || (b == 10 || (b == 12 || b == 13)))

unfoldable pub is_blank : List ℕ → Bool
is_blank [] = true
is_blank (b ∷ line) = is_ascii_whitespace b && is_blank line

-- The bytes in front of the first newline, and those behind it.
unfoldable pub split_line : List ℕ → Option (List ℕ × List ℕ)
split_line [] = none
split_line (b ∷ bytes) =
    if b == newline
    then some ([], bytes)
    else elim (split_line bytes) [ none ↦ none | some (line, rest) ↦ some (b ∷ line, rest) ]

-- A carriage return at the end is not part of the line.
unfoldable pub strip_cr : List ℕ → List ℕ
strip_cr [] = []
strip_cr (b ∷ []) = if b == carriage_return then [] else b ∷ []
strip_cr (b ∷ c ∷ line) = b ∷ strip_cr (c ∷ line)

unfoldable pub encode : List ℕ → List ℕ
encode written = written ++ (newline ∷ [])

module _ {T E : Type 0} (parse : List ℕ → Result T E) where
  unfoldable pub parse_line : List ℕ → Result T (Error E)
  parse_line line = elim (parse line) [ ok value ↦ ok value | err e ↦ err (json e) ]

  -- What is left when no newline is in the buffer.
  unfoldable pub starved : Decoder → Decoder × Option (Result T (Error E))
  starved d =
      if ltb d.limit (length d.buf) then (record d { buf = [] }, some (err too_long)) else (d, none)

  -- A round of the loop, on the line that was found; `again` is the next round.
  unfoldable pub take_line :
      Decoder
      → Option (List ℕ × List ℕ)
      → (Decoder → Decoder × Option (Result T (Error E)))
      → Decoder × Option (Result T (Error E))
  take_line d none again = starved d
  take_line d (some (line, rest)) again =
      if is_blank (strip_cr line)
      then again (record d { buf = rest })
      else (record d { buf = rest }, some (parse_line (strip_cr line)))

  -- The loop, with a round for each byte; every round takes at least one.
  unfoldable pub next_loop : ℕ → Decoder → Decoder × Option (Result T (Error E))
  next_loop zero d = starved d
  next_loop (suc fuel) d = take_line d (split_line d.buf) (λ d'. next_loop fuel d')

  unfoldable pub next : Decoder → Decoder × Option (Result T (Error E))
  next d = next_loop (length d.buf) d

  abbrev pub is_too_long : Result T (Error E) → Bool
  is_too_long (ok value) = false
  is_too_long (err (json e)) = false
  is_too_long (err too_long) = true

  unfoldable pub drained :
      Decoder × Option (Result T (Error E))
      → (Decoder → Decoder × List (Result T (Error E)))
      → Decoder × List (Result T (Error E))
  drained (d, none) rest = (d, [])
  drained (d, some message) rest =
      if is_too_long message then (d, message ∷ []) else ((rest d).0, message ∷ (rest d).1)

  -- What the daemon takes off a connection after a read: every message that has arrived. Too long a
  -- line closes the connection.
  unfoldable pub drain : ℕ → Decoder → Decoder × List (Result T (Error E))
  drain zero d = (d, [])
  drain (suc fuel) d = drained (next d) (λ d'. drain fuel d')

  unfoldable pub receive : Decoder → List ℕ → Decoder × List (Result T (Error E))
  receive d chunk = let d' = extend d chunk in drain (suc (length d'.buf)) d'

  -- One read after another.
  unfoldable pub receive_all : Decoder → List (List ℕ) → Decoder × List (Result T (Error E))
  receive_all d [] = (d, [])
  receive_all d (chunk ∷ chunks) =
      let (d', messages) = receive d chunk in
      ((receive_all d' chunks).0, messages ++ (receive_all d' chunks).1)
