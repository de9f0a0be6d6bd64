-- ===== src/Ipc/Frame/Chunks.antt =====
-- Messages do not depend on how a stream is cut (crates/caw-ipc/src/frame.rs, `Decoder`).
use caw.Prelude.{
  ℕ, zero, suc, ◌≤◌, ◌<◌, false, List, [], ◌∷◌, ◌++◌, if◌then◌else◌, Option, none, some, length,
  ◌≡◌, refl, ap, sym, ◌∙◌, arith, Bool-cases, inl, inr, ◌⊎◌, append_assoc, append-nil, Result,
  Result-cases, le→not_ltb,
}
use caw.Ipc.Frame.{
  Decoder, Error, next, next_loop, starved, drain, drained, is_too_long, parse_line, is_blank,
  strip_cr, receive, receive_all, extend, split_line, take_line,
}
use caw.Ipc.Frame.Lines.{
  split_all, lines_of, rest_of, split_line-none, split_line-some, split_all-append,
  split_all-rest_of, IsWithin, concat,
}

module _ {T E : Type 0} (parse : List ℕ → Result T E) where
  -- The messages of complete lines: a line each, but for blank ones.
  unfoldable pub messages_of : List (List ℕ) → List (Result T (Error E))
  messages_of [] = []
  messages_of (line ∷ lines) =
      if is_blank (strip_cr line)
      then messages_of lines
      else parse_line parse (strip_cr line) ∷ messages_of lines

  pub messages_of-append :
      (front back : List (List ℕ))
      → messages_of (front ++ back) ≡ messages_of front ++ messages_of back
  unfolding messages_of
  messages_of-append [] back = refl
  messages_of-append (line ∷ front) back = elim (Bool-cases (is_blank (strip_cr line))) [
    | inl blank ↦ rw blank (messages_of-append front back)
    | inr filled ↦
        rw filled (ap (λ ms. parse_line parse (strip_cr line) ∷ ms) (messages_of-append front back))
  ]

  not_too_long : (line : List ℕ) → is_too_long parse (parse_line parse line) ≡ false
  unfolding parse_line
  not_too_long line = ground (arith, Result-cases (parse line))

  -- What one call of `next` does.
  abbrev IsNext : Decoder → Decoder × Option (Result T (Error E)) → Type 0
  IsNext d outcome =
      ((messages_of (lines_of d.buf) ≡ []) × (outcome ≡ (record d { buf = rest_of d.buf }, none)))
      ⊎ ((line : List ℕ) × (rest : List ℕ) × (outcome
            ≡ (record d { buf = rest }, some (parse_line parse line)))
          × (messages_of (lines_of d.buf) ≡ parse_line parse line ∷ messages_of (lines_of rest))
          × (rest_of d.buf ≡ rest_of rest)
          × (length rest < length d.buf))

  no_line : (bytes : List ℕ) → length bytes ≤ 0 → split_line bytes ≡ none
  unfolding split_line
  no_line [] h = refl
  no_line (b ∷ bytes) h = absurd (omega arith)

  starved-IsNext :
      (d : Decoder)
      → split_line d.buf ≡ none
      → length (rest_of d.buf) ≤ d.limit
      → IsNext d (starved parse d)
  unfolding starved messages_of
  starved-IsNext d nothing short =
      let whole : split_all d.buf ≡ ([], d.buf) = split_line-none d.buf nothing in
      let fits : length d.buf ≤ d.limit = omega (arith, ap (λ parts. length (parts.1)) whole) in
      inl (
        ap (λ parts. messages_of (parts.0)) whole,
        rw (le→not_ltb d.limit (length d.buf) fits, ap (λ parts. parts.1) whole) refl,
      )

  -- A line that is passed over changes nothing of what is left to take.
  after_blank :
      (d : Decoder) (line rest : List ℕ) (outcome : Decoder × Option (Result T (Error E)))
      → messages_of (lines_of d.buf) ≡ messages_of (lines_of rest)
      → rest_of d.buf ≡ rest_of rest
      → length rest < length d.buf
      → IsNext (record d { buf = rest }) outcome
      → IsNext d outcome
  after_blank d line rest outcome same_messages same_rest shorter (inl (none_left, is_outcome)) =
      inl (same_messages ∙ none_left, rw same_rest is_outcome)
  after_blank d line rest outcome same_messages same_rest shorter
        (inr (l, r, is_outcome, splits, leaves, less)) =
      inr (l, r, is_outcome, same_messages ∙ splits, same_rest ∙ leaves, omega arith)

  take_line-IsNext :
      (d : Decoder) (found : Option (List ℕ × List ℕ))
      (again : Decoder → Decoder × Option (Result T (Error E)))
      → split_line d.buf ≡ found
      → length (rest_of d.buf) ≤ d.limit
      → ((rest : List ℕ)
          → length rest < length d.buf
          → length (rest_of rest) ≤ d.limit
          → IsNext (record d { buf = rest }) (again (record d { buf = rest })))
      → IsNext d (take_line parse d found again)
  unfolding take_line messages_of
  take_line-IsNext d none again e short go = starved-IsNext d e short
  take_line-IsNext d (some (line, rest)) again e short go =
      let (splits, shorter) = split_line-some d.buf line rest e in
      let lines : lines_of d.buf ≡ line ∷ lines_of rest = ap (λ parts. parts.0) splits in
      elim (Bool-cases (is_blank (strip_cr line))) [
        | inl blank ↦ rw blank (
            after_blank d line rest (again (record d { buf = rest })) (rw (lines, blank) refl)
              (ap (λ parts. parts.1) splits) shorter
              (go rest shorter (omega (arith, ap (λ parts. length (parts.1)) splits))))
        | inr filled ↦ inr (
          strip_cr line,
          rest,
          rw filled refl,
          rw (lines, filled) refl,
          ap (λ parts. parts.1) splits,
          shorter,
        )
      ]

  next_loop-IsNext :
      (fuel : ℕ) (d : Decoder)
      → length d.buf ≤ fuel
      → length (rest_of d.buf) ≤ d.limit
      → IsNext d (next_loop parse fuel d)
  unfolding next_loop
  next_loop-IsNext zero d h short = starved-IsNext d (no_line d.buf (omega arith)) short
  next_loop-IsNext (suc fuel) d h short =
      take_line-IsNext d (split_line d.buf) (λ d'. next_loop parse fuel d') refl short
        (λ rest shorter fits. next_loop-IsNext fuel (record d { buf = rest }) (omega arith) fits)

  drained-messages :
      (d : Decoder) (outcome : Decoder × Option (Result T (Error E)))
      (again : Decoder → Decoder × List (Result T (Error E)))
      → IsNext d outcome
      → ((rest : List ℕ)
          → length rest < length d.buf
          → rest_of d.buf ≡ rest_of rest
          → again (record d { buf = rest })
            ≡ (record d { buf = rest_of rest }, messages_of (lines_of rest)))
      → drained parse outcome again
        ≡ (record d { buf = rest_of d.buf }, messages_of (lines_of d.buf))
  unfolding drained
  drained-messages d outcome again (inl (none_left, is_outcome)) go =
      rw (is_outcome, none_left) refl
  drained-messages d outcome again (inr (line, rest, is_outcome, splits, leaves, less)) go =
      rw (is_outcome, splits, leaves, not_too_long line, go rest less leaves) refl

  drain-messages :
      (fuel : ℕ) (d : Decoder)
      → length d.buf < fuel
      → length (rest_of d.buf) ≤ d.limit
      → drain parse fuel d ≡ (record d { buf = rest_of d.buf }, messages_of (lines_of d.buf))
  unfolding drain next
  drain-messages zero d h short = absurd (omega arith)
  drain-messages (suc fuel) d h short =
      drained-messages d (next_loop parse (length d.buf) d) (λ d'. drain parse fuel d')
        (next_loop-IsNext (length d.buf) d (omega arith) short)
        (λ rest shorter leaves.
          drain-messages fuel (record d { buf = rest }) (omega arith)
            (omega (arith, ap length leaves)))

  receive-messages :
      (d : Decoder) (chunk : List ℕ)
      → length (rest_of (d.buf ++ chunk)) ≤ d.limit
      → receive parse d chunk
        ≡ (record d { buf = rest_of (d.buf ++ chunk) }, messages_of (lines_of (d.buf ++ chunk)))
  unfolding receive extend
  receive-messages d chunk fits =
      drain-messages (suc (length (d.buf ++ chunk))) (record d { buf = d.buf ++ chunk })
        (omega arith) fits

  -- Reads that are cut in any way yield the messages of the complete lines of the whole stream, each
  -- once and in order, and hold back what follows the last newline, as long as no unfinished line is
  -- over the limit.
  pub receive_all-messages :
      (d : Decoder) (chunks : List (List ℕ))
      → rest_of d.buf ≡ d.buf
      → lines_of d.buf ≡ []
      → IsWithin d.limit d.buf chunks
      → receive_all parse d chunks ≡ (
        record d { buf = rest_of (d.buf ++ concat chunks) },
        messages_of (lines_of (d.buf ++ concat chunks)),
      )
  unfolding receive_all messages_of
  receive_all-messages d [] settled no_lines within = rw (append-nil d.buf, settled, no_lines) refl
  receive_all-messages d (chunk ∷ chunks) settled no_lines (fits, within) =
      let held : List ℕ = d.buf ++ chunk in
      let taken : receive parse d chunk
          ≡ (record d { buf = rest_of held }, messages_of (lines_of held)) =
        receive-messages d chunk fits in
      let clean : split_all (rest_of held) ≡ ([], rest_of held) = split_all-rest_of held in
      let more : receive_all parse (record d { buf = rest_of held }) chunks ≡ (
        record d { buf = rest_of (rest_of held ++ concat chunks) },
        messages_of (lines_of (rest_of held ++ concat chunks)),
      ) =
        receive_all-messages (record d { buf = rest_of held }) chunks (ap (λ parts. parts.1) clean)
          (ap (λ parts. parts.0) clean) within in
      let whole : d.buf ++ (chunk ++ concat chunks) ≡ held ++ concat chunks =
        sym (append_assoc d.buf chunk (concat chunks)) in
      rw
        (
          taken,
          more,
          whole,
          ap (λ parts. parts.0) (split_all-append held (concat chunks)),
          ap (λ parts. parts.1) (split_all-append held (concat chunks)),
          messages_of-append (lines_of held) (lines_of (rest_of held ++ concat chunks)),
        )
        refl
