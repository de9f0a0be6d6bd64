-- ===== src/Ipc/Frame/RoundTrip.antt =====
-- What one end writes the other reads (crates/caw-ipc/src/frame.rs, `encode` and `Decoder`).
use caw.Prelude.{ℕ, ◌==◌, false, List, [], ◌∷◌, map, ◌≡◌, refl, ap, ◌∙◌, All, Result, append_assoc}
use caw.Ipc.Frame.{newline, with_limit, encode, is_blank, strip_cr, parse_line, receive_all}
use caw.Ipc.Frame.Lines.{split_all, split_all-line, IsWithin, concat}
use caw.Ipc.Frame.Chunks.{messages_of, receive_all-messages}

-- A serialized message, as JSON is: no newline in it, no carriage return at its end, and not blank.
pub record IsMessage (written : List ℕ) : Type 0 where
  pub one_line : All (λ b. (b == newline) ≡ false) written
  pub no_return : strip_cr written ≡ written
  pub not_blank : is_blank written ≡ false

split_all-encode :
    (messages : List (List ℕ))
    → All IsMessage messages
    → split_all (concat (map encode messages)) ≡ (messages, [])
unfolding split_all encode
split_all-encode [] h = refl
split_all-encode (written ∷ messages) (is_message, all) =
    let later : split_all (concat (map encode messages)) ≡ (messages, []) =
      split_all-encode messages all in
    rw (append_assoc written (newline ∷ []) (concat (map encode messages))) (
      split_all-line written (concat (map encode messages)) is_message.one_line
      ∙ ap (λ parts. (written ∷ parts.0, parts.1)) later)

module _ {T E : Type 0} (parse : List ℕ → Result T E) where
  messages_of-IsMessage :
      (messages : List (List ℕ))
      → All IsMessage messages
      → messages_of parse messages ≡ map (parse_line parse) messages
  unfolding messages_of
  messages_of-IsMessage [] h = refl
  messages_of-IsMessage (written ∷ messages) (is_message, all) =
      rw (is_message.no_return, is_message.not_blank)
        (ap (λ ms. parse_line parse written ∷ ms) (messages_of-IsMessage messages all))

  -- Serialized messages that are written one after another are read back one by one, each parsed as it
  -- was written, however the reads cut the stream, and nothing is held back. No unfinished line may be
  -- over the limit.
  pub receive_all-encode :
      (limit : ℕ) (messages chunks : List (List ℕ))
      → All IsMessage messages
      → concat chunks ≡ concat (map encode messages)
      → IsWithin limit [] chunks
      → receive_all parse (with_limit limit) chunks
        ≡ (with_limit limit, map (parse_line parse) messages)
  unfolding with_limit split_all
  receive_all-encode limit messages chunks all same within =
      let parts : split_all (concat chunks) ≡ (messages, []) =
        ap split_all same ∙ split_all-encode messages all in
      receive_all-messages parse (record { buf = []; limit = limit }) chunks refl refl within
      ∙ rw (ap (λ ps. ps.0) parts, ap (λ ps. ps.1) parts, messages_of-IsMessage messages all) refl
