-- ===== src/Dhcp/Area/RoundTrip.antt =====
-- The option area that `encode_all` writes, read back (crates/caw-dhcp/src/options.rs).
use caw.Prelude.{
  ℕ, zero, suc, ◌<◌, ◌≡◌, refl, sym, ap, ◌∙◌, List, [], ◌∷◌, ◌++◌, append_assoc, append-nil, ok,
  length, All, length-append, take-append, drop-append, arith, ◌≢◌,
}
use caw.Dhcp.Options.{DhcpOption, code, opt_pad, opt_end, opt_overload, other_option, encode_option}
use caw.Dhcp.Options.RoundTrip.{IsEncodable, payload, decode_option-payload, encode_option-payload}
use caw.Dhcp.Area.{
  go_on, decode_round, decode_tlv, decode_loop, decode_into, encode_each, encode_all,
}

-- The area of a list of options, without its end.
unfoldable pub area : List DhcpOption → List ℕ
area [] = []
area (o ∷ os) = (code o ∷ (length (payload o) ∷ payload o)) ++ area os

pub encode_each-area :
    (os : List DhcpOption) (out : List ℕ) → All IsEncodable os → encode_each os out ≡ out ++ area os
unfolding encode_each area
encode_each-area [] out h = sym (append-nil out)
encode_each-area (o ∷ os) out (ho, hs) =
    encode_each-area os (encode_option o out) hs
    ∙ ap (λ t. t ++ area os) (encode_option-payload o out ho)
    ∙ append_assoc out _ (area os)

-- The codes that the loop takes for something else are not codes of such an option.
code_plain :
    (o : DhcpOption)
    → IsEncodable o
    → (code o ≢ opt_pad) × (code o ≢ opt_end) × (code o ≢ opt_overload)
unfolding code
code_plain (other_option c bytes) h = (h.2, h.3, h.4)
code_plain _ h = omega arith

-- One round on an encoded option reads it, and leaves what stands behind it.
round_on_option :
    (o : DhcpOption) (rest : List ℕ) (overload : ℕ) (out : List DhcpOption)
    → IsEncodable o
    → decode_round (code o) (length (payload o) ∷ (payload o ++ rest)) overload out
      ≡ ok (go_on rest overload (out ++ (o ∷ [])))
unfolding decode_round decode_tlv
round_on_option o rest overload out h =
    let (p1, p2, p3) = code_plain o h in
    ground (
      arith,
      length-append (payload o) rest,
      take-append (length (payload o)) (payload o) rest refl,
      drop-append (length (payload o)) (payload o) rest refl,
      decode_option-payload o h,
    )

loop_on_area :
    (os : List DhcpOption) (fuel : ℕ) (rest : List ℕ) (overload : ℕ) (out : List DhcpOption)
    → All IsEncodable os
    → length (area os) < fuel
    → decode_loop fuel (area os ++ (opt_end ∷ rest)) overload out ≡ ok (overload, out ++ os)
unfolding decode_loop area
loop_on_area os zero rest overload out h hf = absurd (omega arith)
loop_on_area [] (suc fuel) rest overload out h hf = unfold decode_round in rw (append-nil out)
loop_on_area (o ∷ os) (suc fuel) rest overload out (ho, hs) hf =
    rw
      (
        append_assoc (payload o) (area os) (opt_end ∷ rest),
        round_on_option o (area os ++ (opt_end ∷ rest)) overload out ho,
        decode_loop,
      )
      (loop_on_area os fuel rest overload (out ++ (o ∷ [])) hs
          (omega (arith, length-append (payload o) (area os)))
        ∙ ap ok (ap (λ t. (overload, t)) (append_assoc out (o ∷ []) os)))

-- The options are appended to what is there.
pub encode_all-append :
    (os : List DhcpOption) (out : List ℕ)
    → All IsEncodable os
    → encode_all os out ≡ out ++ encode_all os []
unfolding encode_all
encode_all-append os out h =
    rw (encode_each-area os out h, encode_each-area os [] h) (append_assoc out (area os) _)

-- The area that `encode_all` writes for encodable options decodes to these options, with no
-- overload bits, behind those that `out` holds; whatever follows the end option is not read.
pub decode_into-encode_all :
    (os : List DhcpOption) (rest : List ℕ) (out : List DhcpOption)
    → All IsEncodable os
    → decode_into (encode_all os [] ++ rest) out ≡ ok (0, out ++ os)
unfolding decode_into encode_all
decode_into-encode_all os rest out h =
    let buf : List ℕ = area os ++ (opt_end ∷ rest) in
    let e : encode_each os [] ++ (opt_end ∷ []) ++ rest ≡ buf =
      rw (encode_each-area os [] h) (append_assoc (area os) (opt_end ∷ []) rest) in
    rw e (
      loop_on_area os (length buf) rest 0 out h
        (omega (arith, length-append (area os) (opt_end ∷ rest))))
