-- ===== src/Dhcp/Area/Fuel.antt =====
-- The loop over the option area ends (crates/caw-dhcp/src/options.rs, `decode_into`).
use caw.Prelude.{
  ℕ, zero, suc, ◌+◌, ◌≤◌, ◌≡◌, refl, List, [], ◌∷◌, ok, err, length, length-drop, arith, Result,
}
use caw.Dhcp.Addr.{Error}
use caw.Dhcp.Options.{DhcpOption}
use caw.Dhcp.Area.{Round, stop, go_on, decode_round, decode_tlv, decode_loop, decode_into}

decode_tlv_shrinks :
    (c : ℕ) (rest : List ℕ) (overload : ℕ) (out : List DhcpOption) (rest' : List ℕ) (overload' : ℕ)
    (out' : List DhcpOption)
    → decode_tlv c rest overload out ≡ ok (go_on rest' overload' out')
    → length rest' ≤ length rest
unfolding decode_tlv
decode_tlv_shrinks c [] overload out rest' overload' out' h = cc
decode_tlv_shrinks c (len ∷ rest) overload out rest' overload' out' h =
    ground (arith, length-drop len rest)

-- A round leaves no more than what stands behind its first byte.
pub decode_round_shrinks :
    (c : ℕ) (rest : List ℕ) (overload : ℕ) (out : List DhcpOption) (rest' : List ℕ) (overload' : ℕ)
    (out' : List DhcpOption)
    → decode_round c rest overload out ≡ ok (go_on rest' overload' out')
    → length rest' ≤ length rest
unfolding decode_round
decode_round_shrinks c rest overload out rest' overload' out' h =
    ground (arith, decode_tlv_shrinks c rest overload out rest' overload' out')

-- The loop as it is written, without fuel: `Ends n buf overload out r` where, with `buf` ahead of it,
-- it returns `r` after `n` rounds.
pub data Ends : ℕ → List ℕ → ℕ → List DhcpOption → Result (ℕ × List DhcpOption) Error → Type 0 where
  at_end : (overload : ℕ) (out : List DhcpOption) → Ends 0 [] overload out (ok (overload, out))
  fails :
      (c : ℕ) (rest : List ℕ) (overload : ℕ) (out : List DhcpOption) (e : Error)
      → decode_round c rest overload out ≡ err e
      → Ends 1 (c ∷ rest) overload out (err e)
  stops :
      (c : ℕ) (rest : List ℕ) (overload : ℕ) (out : List DhcpOption) (overload' : ℕ)
      (out' : List DhcpOption)
      → decode_round c rest overload out ≡ ok (stop overload' out')
      → Ends 1 (c ∷ rest) overload out (ok (overload', out'))
  goes_on :
      (n c : ℕ) (rest : List ℕ) (overload : ℕ) (out : List DhcpOption) (rest' : List ℕ)
      (overload' : ℕ) (out' : List DhcpOption) (r : Result (ℕ × List DhcpOption) Error)
      → decode_round c rest overload out ≡ ok (go_on rest' overload' out')
      → Ends n rest' overload' out' r
      → Ends (n + 1) (c ∷ rest) overload out r

-- It returns `r` after at most `bound` rounds.
abbrev pub EndsWithin :
    ℕ → List ℕ → ℕ → List DhcpOption → Result (ℕ × List DhcpOption) Error → Type 0
EndsWithin bound buf overload out r = (n : ℕ) × Ends n buf overload out r × (n ≤ bound)

round-Ends :
    (fuel c : ℕ) (rest : List ℕ) (overload : ℕ) (out : List DhcpOption) (r : Result Round Error)
    → decode_round c rest overload out ≡ r
    → ((buf : List ℕ) (overload' : ℕ) (out' : List DhcpOption)
        → length buf ≤ length rest
        → EndsWithin (length buf) buf overload' out' (decode_loop fuel buf overload' out'))
    → EndsWithin
        (suc (length rest))
        (c ∷ rest)
        overload
        out
        (decode_loop (suc fuel) (c ∷ rest) overload out)
unfolding decode_loop
round-Ends fuel c rest overload out (err e) h ih =
    rw (h, decode_loop) (1, fails c rest overload out e h, omega arith)
round-Ends fuel c rest overload out (ok (stop overload' out')) h ih =
    rw (h, decode_loop) (1, stops c rest overload out overload' out' h, omega arith)
round-Ends fuel c rest overload out (ok (go_on rest' overload' out')) h ih =
    let shorter : length rest' ≤ length rest =
      decode_round_shrinks c rest overload out rest' overload' out' h in
    let (n, ends, within) = ih rest' overload' out' shorter in
    rw (h, decode_loop)
      (n + 1, goes_on n c rest overload out rest' overload' out' _ h ends, omega arith)

decode_loop-Ends :
    (fuel : ℕ) (buf : List ℕ) (overload : ℕ) (out : List DhcpOption)
    → length buf ≤ fuel
    → EndsWithin (length buf) buf overload out (decode_loop fuel buf overload out)
unfolding decode_loop
decode_loop-Ends fuel [] overload out enough = (0, at_end overload out, omega arith)
decode_loop-Ends zero (c ∷ rest) overload out enough = absurd (omega arith)
decode_loop-Ends (suc fuel) (c ∷ rest) overload out enough =
    round-Ends fuel c rest overload out (decode_round c rest overload out) refl
      (λ buf overload' out' h. decode_loop-Ends fuel buf overload' out' (omega arith))

-- The loop over an option area, taken round by round without any limit, returns after at most as
-- many rounds as the area has bytes, and with the result of `decode_into`.
pub decode_into-Ends :
    (buf : List ℕ) (out : List DhcpOption) → EndsWithin (length buf) buf 0 out (decode_into buf out)
unfolding decode_into
decode_into-Ends buf out = decode_loop-Ends (length buf) buf 0 out (omega arith)
