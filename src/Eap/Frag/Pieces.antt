-- ===== src/Eap/Frag/Pieces.antt =====
-- Single fragments: their flags, how they parse and how they are taken in
-- (crates/caw-eapol/src/eap/frag.rs).
use caw.Prelude.{
  ℕ, ◌≤◌, ◌≡◌, refl, Bool, true, false, List, ◌∷◌, ◌++◌, ◌==◌, ◌&&◌, none, some, ok, length, arith,
  not, bit_and, bit_or, ==_iff, le→not_ltb,
}
use caw.Prelude.Words.{IsU32, be_u32-bytes, u32_bytes}
use caw.Prelude.Bits.{holds_below}
use caw.Eap.Frag.{
  parse, parse_length, more, has_flag, flag_length_included, flag_more_fragments, flag_start,
  version_mask, new_reassembler, in_progress, open_message, absorb, push, max_tls_message,
}

-- The flags on the wire, for base flags that are a version number.
-- No start flag, and the version `v`.
abbrev pub is_version : ℕ → ℕ → Bool
is_version flags v = not (has_flag flags flag_start) && (bit_and flags version_mask == v)

abbrev pub flags_agree : ℕ → Bool
flags_agree b =
    not (has_flag b flag_length_included)
    && (not (has_flag b flag_more_fragments)
        && (not (has_flag (bit_or b flag_more_fragments) flag_length_included)
            && (has_flag (bit_or b flag_more_fragments) flag_more_fragments
                && (has_flag (bit_or (bit_or b flag_more_fragments) flag_length_included)
                      flag_length_included
                    && (has_flag (bit_or (bit_or b flag_more_fragments) flag_length_included)
                          flag_more_fragments
                        && (is_version b b
                            && (is_version (bit_or b flag_more_fragments) b
                                && is_version
                                    (bit_or (bit_or b flag_more_fragments) flag_length_included)
                                    b)))))))

pub record FlagsAgree (b : ℕ) : Type 0 where
  pub no_length_last : has_flag b flag_length_included ≡ false
  pub no_more_last : has_flag b flag_more_fragments ≡ false
  pub no_length_middle : has_flag (bit_or b flag_more_fragments) flag_length_included ≡ false
  pub more_middle : has_flag (bit_or b flag_more_fragments) flag_more_fragments ≡ true
  pub length_first :
      has_flag (bit_or (bit_or b flag_more_fragments) flag_length_included) flag_length_included
      ≡ true
  pub more_first :
      has_flag (bit_or (bit_or b flag_more_fragments) flag_length_included) flag_more_fragments
      ≡ true
  pub version_last : is_version b b ≡ true
  pub version_middle : is_version (bit_or b flag_more_fragments) b ≡ true
  pub version_first :
      is_version (bit_or (bit_or b flag_more_fragments) flag_length_included) b ≡ true

pub flags_table : holds_below 8 flags_agree ≡ true
unfolding holds_below
flags_table = refl

-- What the bytes of a fragment parse to.
pub parse_plain :
    (b : ℕ) (chunk : List ℕ)
    → has_flag b flag_length_included ≡ false
    → parse (b ∷ chunk) ≡ ok (record { flags = b; declared_len = none; bytes = chunk })
unfolding parse
parse_plain b chunk h = rw h

pub parse_with_length :
    (b total : ℕ) (chunk : List ℕ)
    → has_flag b flag_length_included ≡ true
    → IsU32 total
    → parse (b ∷ (u32_bytes total ++ chunk))
      ≡ ok (record { flags = b; declared_len = some total; bytes = chunk })
unfolding parse parse_length u32_bytes
parse_with_length b total chunk h t = rw (h, be_u32-bytes total t)

-- What the reassembler does with each kind of fragment of a message that keeps its length.
module _ (b total : ℕ) (chunk : List ℕ) where
  pub push_first :
      has_flag b flag_more_fragments ≡ true
      → length chunk ≤ total
      → total ≤ max_tls_message
      → push new_reassembler (record { flags = b; declared_len = some total; bytes = chunk })
        ≡ (record { buf = chunk; declared = some total }, ok none)
  unfolding push open_message absorb in_progress more
  push_first hb hc ht = rw (le→not_ltb _ _ ht, push, le→not_ltb _ _ hc, hb)

  pub push_next :
      (buf : List ℕ)
      → has_flag b flag_more_fragments ≡ true
      → length (buf ++ chunk) ≤ total
      → push
          (record { buf = buf; declared = some total })
          (record { flags = b; declared_len = none; bytes = chunk })
        ≡ (record { buf = buf ++ chunk; declared = some total }, ok none)
  unfolding push open_message absorb in_progress more
  push_next buf hb hc = rw (le→not_ltb _ _ hc, hb)

  pub push_last :
      (buf : List ℕ)
      → has_flag b flag_more_fragments ≡ false
      → length (buf ++ chunk) ≡ total
      → push
          (record { buf = buf; declared = some total })
          (record { flags = b; declared_len = none; bytes = chunk })
        ≡ (new_reassembler, ok (some (buf ++ chunk)))
  unfolding push open_message absorb in_progress more
  push_last buf hb hc =
      rw (hc, le→not_ltb total total (omega arith), hb, (==_iff total total).1 refl)

pub push_single :
    (b : ℕ) (chunk : List ℕ)
    → has_flag b flag_more_fragments ≡ false
    → length chunk ≤ max_tls_message
    → push new_reassembler (record { flags = b; declared_len = none; bytes = chunk })
      ≡ (new_reassembler, ok (some chunk))
unfolding push open_message absorb in_progress more
push_single b chunk hb hc = rw (hb, push, le→not_ltb _ _ hc, hb)
