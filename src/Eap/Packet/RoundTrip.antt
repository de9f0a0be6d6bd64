-- ===== src/Eap/Packet/RoundTrip.antt =====
-- EAP packets that are built and parsed again (crates/caw-eapol/src/eap/packet.rs).
use caw.Prelude.{
  ℕ, ◌+◌, ◌-◌, ◌≤◌, ◌≡◌, refl, append-nil, List, [], ◌∷◌, ◌++◌, some, ok, length, length-append,
  take-append, arith, le→not_ltb,
}
use native.Mathlib.Nat.{le-add_right}
use caw.Prelude.Words.{be_u16-bytes, u16_bytes, u16_max}
use caw.Eap.Packet.{
  EapCode, request, response, EapPacket, parse, encode, encode_response, nak, type_nak, from_u8,
  code_byte, eap_type, type_data,
}

from_u8-code_byte : (c : EapCode) → from_u8 (code_byte c) ≡ ok c
unfolding from_u8 code_byte
from_u8-code_byte request = refl
from_u8-code_byte c = refl

encode_fits :
    (c : EapCode) (identifier : ℕ) (payload bytes : List ℕ)
    → encode c identifier payload ≡ some bytes
    → (4 + length payload ≤ u16_max)
      × (bytes ≡ code_byte c ∷ identifier ∷ (u16_bytes (4 + length payload) ++ payload))
unfolding encode
encode_fits c identifier payload bytes h = ground arith

parse_built :
    (c : EapCode) (identifier : ℕ) (payload padding : List ℕ)
    → 4 + length payload ≤ u16_max
    → parse (code_byte c ∷ identifier ∷ (u16_bytes (4 + length payload) ++ (payload ++ padding)))
      ≡ ok (record { code = c; identifier = identifier; payload = payload })
unfolding parse u16_bytes
parse_built c identifier payload padding h =
    let long : length payload ≤ length (payload ++ padding) =
      omega (arith, length-append payload padding) in
    let rest : 4 + length payload - 4 ≡ length payload = omega arith in
    rw (
      be_u16-bytes (4 + length payload) (omega arith),
      le→not_ltb _ _ (le-add_right 4 (length payload)),
      rest,
      le→not_ltb _ _ long,
      from_u8-code_byte c,
      take-append (length payload) payload padding refl,
    )

-- A packet that can be built parses to its parts, whatever padding follows it.
pub parse-encode :
    (c : EapCode) (identifier : ℕ) (payload padding bytes : List ℕ)
    → encode c identifier payload ≡ some bytes
    → parse (bytes ++ padding)
      ≡ ok (record { code = c; identifier = identifier; payload = payload })
unfolding u16_bytes
parse-encode c identifier payload padding bytes h =
    let (fits, e) = encode_fits c identifier payload bytes h in
    rw e (parse_built c identifier payload padding fits)

-- The methods that a Nak names: 0 stands for none.
abbrev pub methods : List ℕ → List ℕ
methods [] = 0 ∷ []
methods (m ∷ ms) = m ∷ ms

-- A Nak that can be built is read as a response of type Nak to the same request, which names the
-- desired methods, or the one octet 0 where there are none.
pub parse-nak :
    (identifier : ℕ) (desired bytes : List ℕ)
    → nak identifier desired ≡ some bytes
    → (p : EapPacket) × (parse bytes ≡ ok p)
      × (p.code ≡ response)
      × (p.identifier ≡ identifier)
      × (eap_type p ≡ some type_nak)
      × (type_data p ≡ methods desired)
unfolding nak encode_response eap_type type_data
parse-nak identifier [] bytes h = (
  _,
  rw append-nil at (parse-encode response identifier (type_nak ∷ 0 ∷ []) [] bytes h),
  refl,
  refl,
  refl,
  refl,
)
parse-nak identifier (d ∷ ds) bytes h = (
  _,
  rw append-nil at (parse-encode response identifier (type_nak ∷ d ∷ ds) [] bytes h),
  refl,
  refl,
  refl,
  refl,
)
