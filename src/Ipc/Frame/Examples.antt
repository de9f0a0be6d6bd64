-- ===== src/Ipc/Frame/Examples.antt =====
-- Two messages in three reads (crates/caw-ipc/src/frame.rs); a line parses to its length.
use caw.Prelude.{ℕ, List, [], ◌∷◌, ◌≡◌, refl, Result, ok, arith, length}
use caw.Ipc.Frame.{
  with_limit, encode, strip_cr, is_blank, is_ascii_whitespace, parse_line, receive_all,
}
use caw.Ipc.Frame.Lines.{split_all, put}
use caw.Ipc.Frame.Chunks.{messages_of, receive_all-messages}
use caw.Ipc.Frame.RoundTrip.{IsMessage, receive_all-encode}

abbrev parse : List ℕ → Result ℕ ℕ
parse line = ok (length line)

-- `{}` and `[1]`, cut after the first byte and inside the second message.
abbrev chunks : List (List ℕ)
chunks = (123 ∷ []) ∷ (125 ∷ 10 ∷ 91 ∷ []) ∷ (49 ∷ 93 ∷ 10 ∷ []) ∷ []

abbrev messages : List (List ℕ)
messages = (123 ∷ 125 ∷ []) ∷ (91 ∷ 49 ∷ 93 ∷ []) ∷ []

first-IsMessage : IsMessage (123 ∷ 125 ∷ [])
unfolding strip_cr is_blank is_ascii_whitespace
first-IsMessage = record { one_line = (refl, (refl, tt)); no_return = refl; not_blank = refl }

second-IsMessage : IsMessage (91 ∷ 49 ∷ 93 ∷ [])
unfolding strip_cr is_blank is_ascii_whitespace
second-IsMessage = record {
  one_line = (refl, (refl, (refl, tt)));
  no_return = refl;
  not_blank = refl;
}

receive_all-encode_example :
    receive_all parse (with_limit 3) chunks ≡ (with_limit 3, ok 2 ∷ ok 3 ∷ [])
unfolding encode split_all put parse_line
receive_all-encode_example =
    receive_all-encode parse 3 messages chunks (first-IsMessage, (second-IsMessage, tt)) refl
      (omega arith, (omega arith, (omega arith, tt)))

-- A blank line, a message with a carriage return, and the start of another.
abbrev reads : List (List ℕ)
reads = (10 ∷ 55 ∷ []) ∷ (13 ∷ 10 ∷ 56 ∷ []) ∷ []

receive_all-messages_example :
    receive_all parse (with_limit 3) reads ≡ (record { buf = 56 ∷ []; limit = 3 }, ok 1 ∷ [])
unfolding with_limit split_all put messages_of strip_cr is_blank is_ascii_whitespace parse_line
receive_all-messages_example =
    receive_all-messages parse (with_limit 3) reads refl refl (omega arith, (omega arith, tt))
