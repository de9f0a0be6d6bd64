-- ===== src/Eap/Frag/Steps.antt =====
-- Both ends of a fragmented message between two fragments
-- (crates/caw-eapol/src/eap/frag.rs, `Fragmenter` and `Reassembler`).
use caw.Prelude.{
  ℕ, zero, suc, ◌+◌, ◌-◌, ◌≤◌, ◌<◌, ◌≡◌, refl, true, false, List, ◌∷◌, ◌++◌, ◌==◌, some, length,
  length-take, take, drop, arith, ltb, min, bit_or, take_more, lt→ltb, le→not_ltb, lt→not_leb,
}
use caw.Prelude.Words.{u32_max, u32_bytes}
use caw.Prelude.Bits.{holds_below-at}
use caw.Eap.Frag.{
  flag_length_included, flag_more_fragments, Reassembler, new_reassembler, max_tls_message,
  Fragmenter, all_sent, next, fragment_bytes,
}
use caw.Eap.Frag.Pieces.{FlagsAgree, flags_agree, flags_table}

module _ (message : List ℕ) (base size : ℕ) where
  abbrev pub sender : ℕ → Fragmenter
  sender s = record { pending = message; sent = s; fragment_size = size }

  abbrev pub receiver : ℕ → Reassembler
  receiver zero = new_reassembler
  receiver (suc s) = record { buf = take (suc s) message; declared = some (length message) }

  abbrev pub end_of : ℕ → ℕ
  end_of s = min (s + size) (length message)

  abbrev pub chunk_of : ℕ → List ℕ
  chunk_of s = take (end_of s - s) (drop s message)

  pub receiver_pos :
      (e : ℕ)
      → 0 < e
      → receiver e ≡ record { buf = take e message; declared = some (length message) }
  receiver_pos zero h = absurd (omega arith)
  receiver_pos (suc e) h = refl

  pub next_first :
      0 < length message
      → end_of 0 < length message
      → length message ≤ max_tls_message
      → next (sender 0) base
        ≡ some (
          sender (end_of 0),
          some (
              bit_or (bit_or base flag_more_fragments) flag_length_included
              ∷ (u32_bytes (length message) ++ chunk_of 0)),
        )
  unfolding next all_sent fragment_bytes
  next_first h m fits =
      let small : length message ≤ u32_max = omega arith in
      rw (lt→ltb _ _ m, lt→not_leb _ _ h, le→not_ltb _ _ small)

  pub next_middle :
      (s : ℕ)
      → suc s < length message
      → end_of (suc s) < length message
      → next (sender (suc s)) base
        ≡ some (sender (end_of (suc s)), some (bit_or base flag_more_fragments ∷ chunk_of (suc s)))
  unfolding next all_sent fragment_bytes
  next_middle s h m =
      let later : (suc s == 0) ≡ false = ground arith in rw (lt→ltb _ _ m, lt→not_leb _ _ h, later)

  pub next_last :
      (s : ℕ)
      → s < length message
      → end_of s ≡ length message
      → next (sender s) base ≡ some (sender (end_of s), some (base ∷ chunk_of s))
  unfolding next all_sent fragment_bytes
  next_last s h m =
      let done : ltb (end_of s) (length message) ≡ false = le→not_ltb _ _ (omega arith) in
      ground (arith, done, lt→not_leb _ _ h)

  module _ (version_bits : base < 8) (some_size : 0 < size)
      (fits : length message ≤ max_tls_message) where
    pub flags_known : FlagsAgree base
    flags_known =
        let known : flags_agree base ≡ true =
          holds_below-at 8 flags_agree base flags_table version_bits in
        ground arith

    pub received :
        (s : ℕ) → s < length message → take s message ++ chunk_of s ≡ take (end_of s) message
    received s h = take_more s (end_of s) message (omega arith)

    pub length-received :
        (s : ℕ) → s < length message → length (take s message ++ chunk_of s) ≡ end_of s
    length-received s h = rw (received s h) (omega (arith, length-take (end_of s) message))

    pub after_more :
        (s : ℕ)
        → s < length message
        → receiver (end_of s)
          ≡ record { buf = take s message ++ chunk_of s; declared = some (length message) }
    after_more s h = rw (received s h) (receiver_pos (end_of s) (omega arith))
