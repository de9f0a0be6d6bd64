-- ===== src/Dhcp/Area.antt =====
-- The option area behind the magic cookie: its loops (crates/caw-dhcp/src/options.rs).
pub mod Fuel
pub mod RoundTrip
use caw.Prelude.{
  ℕ, zero, suc, ◌+◌, ◌-◌, ◌%◌, Bool, true, false, List, [], ◌∷◌, ◌++◌, ◌==◌, ltb, if◌then◌else◌,
  Result, ok, err, ◌>>=◌, length, take, drop, bit_or,
}
use caw.Dhcp.Addr.{Error, malformed}
use caw.Dhcp.Options.{DhcpOption, decode_option, encode_option, opt_pad, opt_end, opt_overload}

-- One round of the loop over what is left of the buffer, `buf[i..]`: it stops, or goes on behind
-- the pad byte or the option that it read.
pub data Round : Type 0 where
  stop : ℕ → List DhcpOption → Round
  go_on : List ℕ → ℕ → List DhcpOption → Round

unfoldable pub overload_bits : List ℕ → Result ℕ Error
overload_bits (bits ∷ []) = ok bits
overload_bits _ = err malformed

unfoldable pub decode_tlv : ℕ → List ℕ → ℕ → List DhcpOption → Result Round Error
decode_tlv c [] overload out = err malformed
decode_tlv c (len ∷ rest) overload out =
    if ltb (length rest) len
    then err malformed
    else if c == opt_overload
    then overload_bits (take len rest)
      >>= (λ bits. ok (go_on (drop len rest) (bit_or overload bits) out))
    else decode_option c (take len rest)
      >>= (λ o. ok (go_on (drop len rest) overload (out ++ (o ∷ []))))

unfoldable pub decode_round : ℕ → List ℕ → ℕ → List DhcpOption → Result Round Error
decode_round c rest overload out =
    if c == opt_pad
    then ok (go_on rest overload out)
    else if c == opt_end
    then ok (stop overload out)
    else decode_tlv c rest overload out

-- A round takes one byte at least, so as many rounds as there are bytes are enough;
-- the case of no fuel is not reached.
unfoldable pub decode_loop : ℕ → List ℕ → ℕ → List DhcpOption → Result (ℕ × List DhcpOption) Error
decode_loop fuel [] overload out = ok (overload, out)
decode_loop zero (c ∷ rest) overload out = err malformed
decode_loop (suc fuel) (c ∷ rest) overload out = elim (decode_round c rest overload out) [
  | err e ↦ err e
  | ok (stop overload' out') ↦ ok (overload', out')
  | ok (go_on rest' overload' out') ↦ decode_loop fuel rest' overload' out'
]

-- The overload bits and the options read, behind those of `out`.
unfoldable pub decode_into : List ℕ → List DhcpOption → Result (ℕ × List DhcpOption) Error
decode_into buf out = decode_loop (length buf) buf 0 out

unfoldable pub encode_each : List DhcpOption → List ℕ → List ℕ
encode_each [] out = out
encode_each (o ∷ os) out = encode_each os (encode_option o out)

unfoldable pub encode_all : List DhcpOption → List ℕ → List ℕ
encode_all os out = encode_each os out ++ (opt_end ∷ [])
