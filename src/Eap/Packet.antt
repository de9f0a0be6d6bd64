-- ===== src/Eap/Packet.antt =====
-- EAP packets (crates/caw-eapol/src/eap/packet.rs).
pub mod RoundTrip
use caw.Prelude.{
  ℕ, ◌+◌, ◌-◌, List, [], ◌∷◌, ◌++◌, ◌==◌, ltb, if◌then◌else◌, Option, none, some, Result, ok, err,
  ◌>>=◌, ◌>>◌, fail_if, length, take, drop, is_empty,
}
use caw.Prelude.Words.{be_u16, u16_bytes, u16_max}
use caw.Eap.Error.{Error, malformed, unsupported_eap_code}

abbrev pub eap_hdr_len : ℕ
eap_hdr_len = 4

abbrev pub type_nak : ℕ
type_nak = 3

pub data EapCode : Type 0 where
  request response success failure : EapCode

unfoldable pub from_u8 : ℕ → Result EapCode Error
from_u8 v =
    if v == 1
    then ok request
    else if v == 2
    then ok response
    else if v == 3
    then ok success
    else if v == 4
    then ok failure
    else err (unsupported_eap_code v)

-- `code as u8`
unfoldable pub code_byte : EapCode → ℕ
code_byte request = 1
code_byte response = 2
code_byte success = 3
code_byte failure = 4

pub record EapPacket : Type 0 where
  pub code : EapCode
  pub identifier : ℕ
  pub payload : List ℕ

-- The declared length counts the header, and what stands behind it is padding.
unfoldable pub parse : List ℕ → Result EapPacket Error
parse (code ∷ identifier ∷ hi ∷ lo ∷ rest) = do
  let declared = be_u16 hi lo
  fail_if (ltb declared eap_hdr_len) malformed
  fail_if (ltb (length rest) (declared - eap_hdr_len)) malformed
  c ← from_u8 code
  ok (record { code = c; identifier = identifier; payload = take (declared - eap_hdr_len) rest })
parse _ = err malformed

abbrev first : List ℕ → Option ℕ
first [] = none
first (t ∷ rest) = some t

abbrev type_under : EapCode → List ℕ → Option ℕ
type_under request payload = first payload
type_under response payload = first payload
type_under success payload = none
type_under failure payload = none

unfoldable pub eap_type : EapPacket → Option ℕ
eap_type p = type_under p.code p.payload

unfoldable pub type_data : EapPacket → List ℕ
type_data p = drop 1 p.payload

-- `none` is the panic of `u16::try_from` on a packet past 64 KiB.
unfoldable pub encode : EapCode → ℕ → List ℕ → Option (List ℕ)
encode code identifier payload =
    let len = eap_hdr_len + length payload in
    if ltb u16_max len
    then none
    else some (code_byte code ∷ identifier ∷ (u16_bytes len ++ payload))

unfoldable pub encode_response : ℕ → ℕ → List ℕ → Option (List ℕ)
encode_response identifier eap_type bytes = encode response identifier (eap_type ∷ bytes)

unfoldable pub nak : ℕ → List ℕ → Option (List ℕ)
nak identifier desired =
    if is_empty desired
    then encode_response identifier type_nak (0 ∷ [])
    else encode_response identifier type_nak desired
