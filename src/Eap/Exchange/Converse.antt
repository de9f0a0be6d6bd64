-- ===== src/Eap/Exchange/Converse.antt =====
-- Two exchanges in lock step: one sends a message, the other acknowledges its fragments and
-- delivers it (crates/caw-eapol/src/eap/frag.rs, `Exchange`).
use caw.Prelude.{
  ℕ, zero, suc, ◌+◌, ◌≤◌, ◌<◌, ◌≡◌, ap, ◌∙◌, Bool, true, false, List, [], ◌∷◌, ◌++◌, if◌then◌else◌,
  Option, none, some, ok, length, arith, take, take_all, bit_or, lt→not_leb, ltb, le→not_ltb,
  lt→ltb,
}
use native.Mathlib.Decide.{dec_lt}
use caw.Prelude.Words.{u32_bytes}
use caw.Eap.Frag
use caw.Eap.Frag.{
  Fragment, Reassembler, Fragmenter, new_reassembler, new_fragmenter, all_sent, queue,
  max_tls_message, flag_start, flag_length_included, flag_more_fragments,
}
use caw.Eap.Frag.Pieces.{
  FlagsAgree, parse_plain, parse_with_length, push_first, push_next, push_last, push_single,
}
use caw.Eap.Frag.Steps
use caw.Eap.Exchange.Party.{
  converse, converse_more, converse_last, party, on_request_fragment, on_request_ack,
}
use caw.Eap.Exchange.{Exchange, reply, message, on_request, send, received, empty_reply}

module _ (text : List ℕ) (base size : ℕ) (ma mb : Bool) (r : Reassembler) (g : Fragmenter)
    (version_bits : base < 8) (some_size : 0 < size) (fits : length text ≤ max_tls_message)
    (idle : all_sent g ≡ true) where
  abbrev a_at : ℕ → Exchange
  a_at s = party base r (Steps.sender text base size s) ma

  abbrev b_at : ℕ → Exchange
  b_at s = party base (Steps.receiver text base size s) g mb

  abbrev end_of : ℕ → ℕ
  end_of = Steps.end_of text base size

  abbrev chunk_of : ℕ → List ℕ
  chunk_of = Steps.chunk_of text base size

  known : FlagsAgree base
  known = Steps.flags_known text base size version_bits some_size fits

  -- The bytes of the fragment that begins at `s`.
  abbrev middle_or_last : ℕ → List ℕ
  middle_or_last s =
      (if ltb (end_of s) (length text) then bit_or base flag_more_fragments else base) ∷ chunk_of s

  unsent : (s : ℕ) → s < length text → all_sent (Steps.sender text base size s) ≡ false
  unfolding all_sent
  unsent s h = lt→not_leb _ _ h

  -- The sender answers an acknowledgement with the fragment that begins at `suc s`.
  answer :
      (s : ℕ)
      → suc s < length text
      → on_request (a_at (suc s)) (base ∷ [])
        ≡ some (a_at (end_of (suc s)), ok (reply (middle_or_last (suc s))))
  answer s h = elim (dec_lt (end_of (suc s)) (length text)) [
    | yes m ↦ rw (lt→ltb _ _ m) (
        on_request_ack base r _ _ ma _ known (unsent (suc s) h)
          (Steps.next_middle text base size s h m))
    | no m ↦
        let whole : end_of (suc s) ≡ length text = omega arith in
        rw (le→not_ltb (end_of (suc s)) (length text) (omega arith)) (
          on_request_ack base r _ _ ma _ known (unsent (suc s) h)
            (Steps.next_last text base size (suc s) h whole))
  ]

  answer_at :
      (e : ℕ)
      → 0 < e
      → e < length text
      → on_request (a_at e) (base ∷ []) ≡ some (a_at (end_of e), ok (reply (middle_or_last e)))
  answer_at zero p h = absurd (omega arith)
  answer_at (suc s) p h = answer s h

  -- A later fragment that is not the last one is acknowledged.
  take_middle :
      (s : ℕ)
      → suc s < length text
      → end_of (suc s) < length text
      → on_request (b_at (suc s)) (middle_or_last (suc s))
        ≡ some (b_at (end_of (suc s)), ok (reply (base ∷ [])))
  unfolding received empty_reply
  take_middle s h m =
      rw (lt→ltb _ _ m, Steps.after_more text base size version_bits some_size fits (suc s) h)
        (on_request_fragment base _ _ g mb _ _ (ok none)
          (parse_plain _ (chunk_of (suc s)) known.no_length_middle) known.version_middle idle
          (push_next _ (length text) (chunk_of (suc s)) (take (suc s) text) known.more_middle (
            omega
              (arith, Steps.length-received text base size version_bits some_size fits (suc s) h))))

  -- The last fragment delivers the message.
  take_last :
      (s : ℕ)
      → suc s < length text
      → end_of (suc s) ≡ length text
      → on_request (b_at (suc s)) (base ∷ chunk_of (suc s))
        ≡ some (b_at 0, ok (message (take (suc s) text ++ chunk_of (suc s))))
  unfolding received
  take_last s h m =
      on_request_fragment base _ _ g mb _ _ (ok (some (take (suc s) text ++ chunk_of (suc s))))
        (parse_plain base (chunk_of (suc s)) known.no_length_last) known.version_last idle
        (push_last base (length text) (chunk_of (suc s)) (take (suc s) text) known.no_more_last
          (Steps.length-received text base size version_bits some_size fits (suc s) h ∙ m))

  all_received :
      (s : ℕ) → s < length text → end_of s ≡ length text → take s text ++ chunk_of s ≡ text
  all_received s h m =
      Steps.received text base size version_bits some_size fits s h
      ∙ take_all (end_of s) text (omega arith)

  converse_from :
      (fuel e : ℕ)
      → 0 < e
      → e < length text
      → length text ≤ e + fuel
      → converse fuel (a_at (end_of e)) (b_at e) (middle_or_last e) ≡ some text
  converse_from zero e p h hf = absurd (omega arith)
  converse_from (suc fuel) zero p h hf = absurd (omega arith)
  converse_from (suc fuel) (suc s) p h hf = elim (dec_lt (end_of (suc s)) (length text)) [
    | yes m ↦
        converse_more fuel _ _ _ _ _ _ _ (take_middle s h m)
          (answer_at (end_of (suc s)) (omega arith) m)
        ∙ converse_from fuel (end_of (suc s)) (omega arith) m (omega arith)
    | no m ↦
        let whole : end_of (suc s) ≡ length text = omega arith in
        rw (le→not_ltb (end_of (suc s)) (length text) (omega arith)) (
          converse_last fuel _ _ _ _ _ (take_last s h whole)
          ∙ ap some (all_received (suc s) h whole))
  ]

  -- The first fragment of several is acknowledged.
  take_first :
      0 < length text
      → end_of 0 < length text
      → on_request (b_at 0) (
          bit_or (bit_or base flag_more_fragments) flag_length_included
          ∷ (u32_bytes (length text) ++ chunk_of 0))
        ≡ some (b_at (end_of 0), ok (reply (base ∷ [])))
  unfolding received empty_reply
  take_first h m = rw (Steps.after_more text base size version_bits some_size fits 0 h) (
      on_request_fragment base _ _ g mb _ _ (ok none)
        (parse_with_length _ (length text) (chunk_of 0) known.length_first (omega arith))
        known.version_first idle
        (push_first _ (length text) (chunk_of 0) known.more_first
          (omega (arith, Steps.length-received text base size version_bits some_size fits 0 h))
          fits))

  -- A message of one fragment is delivered.
  take_single :
      0 < length text
      → end_of 0 ≡ length text
      → on_request (b_at 0) (base ∷ chunk_of 0) ≡ some (b_at 0, ok (message (chunk_of 0)))
  unfolding received
  take_single h m =
      on_request_fragment base _ _ g mb _ _ (ok (some (chunk_of 0)))
        (parse_plain base (chunk_of 0) known.no_length_last) known.version_last idle
        (push_single base (chunk_of 0) known.no_more_last
          (omega (arith, Steps.length-received text base size version_bits some_size fits 0 h)))

  -- A message of several fragments, once the sender has handed out the first.
  converse_several :
      (fuel : ℕ)
      → 0 < length text
      → length text ≤ fuel
      → end_of 0 < length text
      → converse fuel (a_at (end_of 0)) (b_at 0) (
          bit_or (bit_or base flag_more_fragments) flag_length_included
          ∷ (u32_bytes (length text) ++ chunk_of 0))
        ≡ some text
  converse_several zero h hf m = absurd (omega arith)
  converse_several (suc fuel) h hf m =
      converse_more fuel _ _ _ _ _ _ _ (take_first h m) (answer_at (end_of 0) (omega arith) m)
      ∙ converse_from fuel (end_of 0) (omega arith) m (omega arith)

  converse_single :
      (fuel : ℕ)
      → 0 < length text
      → length text ≤ fuel
      → end_of 0 ≡ length text
      → converse fuel (a_at (end_of 0)) (b_at 0) (base ∷ chunk_of 0) ≡ some text
  converse_single zero h hf m = absurd (omega arith)
  converse_single (suc fuel) h hf m =
      converse_last fuel _ _ _ _ _ (take_single h m) ∙ ap some (all_received 0 h m)

-- A message that one end sends and the other acknowledges until it delivers it.
unfoldable pub deliver : ℕ → Exchange → Exchange → List ℕ → Option (List ℕ)
deliver fuel a b text = elim (send a text) [
  | none ↦ none
  | some (a', none) ↦ none
  | some (a', some bytes) ↦ converse fuel a' b bytes
]

send_first :
    (a : Exchange) (g : Fragmenter) (text bytes : List ℕ)
    → 0 < length text
    → Frag.next (queue a.outbound text) a.base_flags ≡ some (g, some bytes)
    → send a text ≡ some (record a { outbound = g }, some bytes)
unfolding send
send_first a g [] bytes h n = absurd (omega arith)
send_first a g (x ∷ text) bytes h n = rw n

deliver_sent :
    (fuel : ℕ) (a a' b : Exchange) (text bytes : List ℕ)
    → send a text ≡ some (a', some bytes)
    → deliver fuel a b text ≡ converse fuel a' b bytes
unfolding deliver
deliver_sent fuel a a' b text bytes e = rw (e, deliver)

deliver-party :
    (text : List ℕ) (a : Exchange) (g : Fragmenter) (mb : Bool)
    → a.base_flags < 8
    → 0 < a.outbound.fragment_size
    → 0 < length text
    → length text ≤ max_tls_message
    → all_sent g ≡ true
    → deliver (length text) a (party a.base_flags new_reassembler g mb) text ≡ some text
unfolding queue
deliver-party text a g mb v size h fits idle =
    let end = Steps.end_of text a.base_flags a.outbound.fragment_size 0 in
    elim (dec_lt end (length text)) [
      | yes m ↦
          deliver_sent (length text) a _ _ text _ (
            send_first a _ text _ h
              (Steps.next_first text a.base_flags a.outbound.fragment_size h m fits))
          ∙ converse_several text a.base_flags a.outbound.fragment_size a.mirror_version mb
              a.inbound g v size fits idle (length text) h (omega arith) m
      | no m ↦
          let whole : end ≡ length text = omega arith in
          deliver_sent (length text) a _ _ text _ (
            send_first a _ text _ h
              (Steps.next_last text a.base_flags a.outbound.fragment_size 0 h whole))
          ∙ converse_single text a.base_flags a.outbound.fragment_size a.mirror_version mb a.inbound
              g v size fits idle (length text) h (omega arith) whole
    ]

-- Whatever an exchange `a` was doing before, a message of 1 byte to 64 KiB that it sends, in
-- fragments of at least a byte and with a version number below 8 as its base flags, is delivered
-- as it was to an exchange `b` with the same base flags that is between messages and has sent all
-- of its own. It takes no more rounds than the message has bytes, and no round panics, errs or is
-- out of turn.
pub deliver_lem :
    (text : List ℕ) (a b : Exchange)
    → a.base_flags < 8
    → b.base_flags ≡ a.base_flags
    → b.inbound ≡ new_reassembler
    → all_sent b.outbound ≡ true
    → 0 < a.outbound.fragment_size
    → 0 < length text
    → length text ≤ max_tls_message
    → deliver (length text) a b text ≡ some text
deliver_lem text a b v same fresh idle size h fits =
    let shape : b ≡ party a.base_flags new_reassembler b.outbound b.mirror_version =
      ap (λ i. record b { inbound = i }) fresh
      ∙ ap (λ v. record b { inbound = new_reassembler; base_flags = v }) same in
    rw shape (deliver-party text a b.outbound b.mirror_version v size h fits idle)
