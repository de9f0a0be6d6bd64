-- ===== src/Eap/Frag/Transfer.antt =====
-- A message that one side fragments and the other puts together again
-- (crates/caw-eapol/src/eap/frag.rs, `Fragmenter` and `Reassembler`).
use caw.Prelude.{
  ℕ, zero, suc, ◌+◌, ◌≤◌, ◌<◌, ◌≡◌, ap, ◌∙◌, List, ◌++◌, Option, none, some, ok, err, length, take,
  arith, max, take_all,
}
use native.Mathlib.Decide.{dec_lt}
use caw.Eap.Frag.{
  Fragment, parse, Reassembler, new_reassembler, push, max_tls_message, Fragmenter, new_fragmenter,
  queue, next,
}
use caw.Eap.Frag.Pieces.{
  FlagsAgree, parse_plain, parse_with_length, push_first, push_next, push_last, push_single,
}
use caw.Eap.Frag.Steps

-- The lock step: one fragment is handed out, parsed and taken in, until a message comes out.
-- The fuel counts the fragments; `none` is a panic, an error or the end of the fuel.
unfoldable pub transfer : ℕ → Fragmenter → Reassembler → ℕ → Option (List ℕ)
transfer zero g r base = none
transfer (suc fuel) g r base = elim (next g base) [
  | none ↦ none
  | some (g', none) ↦ none
  | some (g', some bytes) ↦ elim (parse bytes) [
    | err e ↦ none
    | ok f ↦ elim ((push r f).1) [
      | err e ↦ none
      | ok (some message) ↦ some message
      | ok none ↦ transfer fuel g' (push r f).0 base
    ]
  ]
]

-- One exchange of a fragment, from its three steps.
module _ (fuel : ℕ) (g g' : Fragmenter) (r r' : Reassembler) (base : ℕ) (bytes : List ℕ)
    (f : Fragment) (sent : next g base ≡ some (g', some bytes)) (parsed : parse bytes ≡ ok f) where
  transfer_more : push r f ≡ (r', ok none) → transfer (suc fuel) g r base ≡ transfer fuel g' r' base
  unfolding transfer
  transfer_more e = rw (sent, transfer, parsed, e) (rw e)

  transfer_last :
      (message : List ℕ)
      → push r f ≡ (r', ok (some message))
      → transfer (suc fuel) g r base ≡ some message
  unfolding transfer
  transfer_last message e = rw (sent, transfer, parsed, e)

module _ (message : List ℕ) (base size : ℕ) where
  abbrev sender : ℕ → Fragmenter
  sender = Steps.sender message base size

  abbrev receiver : ℕ → Reassembler
  receiver = Steps.receiver message base size

  abbrev end_of : ℕ → ℕ
  end_of = Steps.end_of message base size

  abbrev chunk_of : ℕ → List ℕ
  chunk_of = Steps.chunk_of message base size

  module _ (version_bits : base < 8) (some_size : 0 < size)
      (fits : length message ≤ max_tls_message) where
    known : FlagsAgree base
    known = Steps.flags_known message base size version_bits some_size fits

    more_first :
        (fuel : ℕ)
        → 0 < length message
        → end_of 0 < length message
        → transfer (suc fuel) (sender 0) new_reassembler base
          ≡ transfer fuel (sender (end_of 0)) (receiver (end_of 0)) base
    more_first fuel h m = rw (Steps.after_more message base size version_bits some_size fits 0 h) (
        transfer_more fuel _ _ _ _ base _ _ (Steps.next_first message base size h m fits)
          (parse_with_length _ (length message) (chunk_of 0) known.length_first (omega arith))
          (push_first _ (length message) (chunk_of 0) known.more_first
            (omega (arith, Steps.length-received message base size version_bits some_size fits 0 h))
            fits))

    more_middle :
        (fuel s : ℕ)
        → suc s < length message
        → end_of (suc s) < length message
        → transfer (suc fuel) (sender (suc s)) (receiver (suc s)) base
          ≡ transfer fuel (sender (end_of (suc s))) (receiver (end_of (suc s))) base
    more_middle fuel s h m =
        rw (Steps.after_more message base size version_bits some_size fits (suc s) h) (
          transfer_more fuel _ _ _ _ base _ _ (Steps.next_middle message base size s h m)
            (parse_plain _ (chunk_of (suc s)) known.no_length_middle)
            (push_next _ (length message) (chunk_of (suc s)) (take (suc s) message)
              known.more_middle
              (omega (
                arith,
                Steps.length-received message base size version_bits some_size fits (suc s) h,
              ))))

    last_of :
        (fuel s : ℕ)
        → s < length message
        → end_of s ≡ length message
        → transfer (suc fuel) (sender s) (receiver s) base ≡ some (take s message ++ chunk_of s)
    last_of fuel zero h m =
        transfer_last fuel _ _ _ new_reassembler base _ _ (Steps.next_last message base size 0 h m)
          (parse_plain base (chunk_of 0) known.no_length_last) _
          (push_single base (chunk_of 0) known.no_more_last (
            omega (arith, Steps.length-received message base size version_bits some_size fits 0 h)))
    last_of fuel (suc s) h m =
        transfer_last fuel _ _ _ new_reassembler base _ _
          (Steps.next_last message base size (suc s) h m)
          (parse_plain base (chunk_of (suc s)) known.no_length_last) _
          (push_last base (length message) (chunk_of (suc s)) (take (suc s) message)
            known.no_more_last
            (Steps.length-received message base size version_bits some_size fits (suc s) h ∙ m))

    transfer_end :
        (fuel s : ℕ)
        → s < length message
        → end_of s ≡ length message
        → transfer (suc fuel) (sender s) (receiver s) base ≡ some message
    transfer_end fuel s h m =
        last_of fuel s h m
        ∙ ap some (
            Steps.received message base size version_bits some_size fits s h
            ∙ take_all (end_of s) message (omega arith))

    transfer_from :
        (fuel s : ℕ)
        → s < length message
        → length message ≤ s + fuel
        → transfer fuel (sender s) (receiver s) base ≡ some message
    transfer_from zero s h hf = absurd (omega arith)
    transfer_from (suc fuel) zero h hf = elim (dec_lt (end_of 0) (length message)) [
      | yes m ↦ more_first fuel h m ∙ transfer_from fuel (end_of 0) m (omega arith)
      | no m ↦ transfer_end fuel 0 h (omega arith)
    ]
    transfer_from (suc fuel) (suc s) h hf = elim (dec_lt (end_of (suc s)) (length message)) [
      | yes m ↦ more_middle fuel s h m ∙ transfer_from fuel (end_of (suc s)) m (omega arith)
      | no m ↦ transfer_end fuel (suc s) h (omega arith)
    ]

-- A message of 1 byte to 64 KiB that is queued, fragmented at any size with a version number
-- below 8 as its base flags, and put together again fragment by fragment by an empty reassembler,
-- arrives as it was, in at most as many fragments as bytes.
pub transfer-queue :
    (message : List ℕ) (base size : ℕ)
    → base < 8
    → 0 < length message
    → length message ≤ max_tls_message
    → transfer (length message) (queue (new_fragmenter size) message) new_reassembler base
      ≡ some message
unfolding queue new_fragmenter
transfer-queue message base size hb h fits =
    transfer_from message base (max size 1) hb (omega arith) fits (length message) 0 h (omega arith)
