-- ===== src/Eapol/Frame.antt =====
-- EAPOL frames (crates/caw-eapol/src/lib.rs, `PacketType` and `Eapol`).
pub mod RoundTrip
use caw.Prelude.{
  ℕ, ◌+◌, Bool, true, false, List, [], ◌∷◌, ◌++◌, ◌==◌, ltb, if◌then◌else◌, Option, none, some,
  Result, ok, err, ◌>>=◌, ◌>>◌, fail_if, length, take, ◌≡◌, refl, ap, ◌≤◌, arith, length-append,
  take-append,
}
use caw.Prelude.Words.{be_u16, u16_bytes, u16_max}
use caw.Eap.Error.{Error, malformed, unsupported_packet_type}

abbrev pub eapol_hdr_len : ℕ
eapol_hdr_len = 4

pub data PacketType : Type 0 where
  eap_packet start_packet logoff_packet key_packet : PacketType

unfoldable pub packet_type_of : ℕ → Result PacketType Error
packet_type_of v =
    if v == 0
    then ok eap_packet
    else if v == 1
    then ok start_packet
    else if v == 2
    then ok logoff_packet
    else if v == 3
    then ok key_packet
    else err (unsupported_packet_type v)

unfoldable pub packet_number : PacketType → ℕ
packet_number eap_packet = 0
packet_number start_packet = 1
packet_number logoff_packet = 2
packet_number key_packet = 3

pub record Eapol : Type 0 where
  pub version : ℕ
  pub packet_type : PacketType
  pub body : List ℕ
  pub raw : List ℕ

-- The body is trimmed to the length that the header declares.
unfoldable pub parse : List ℕ → Result Eapol Error
parse (version ∷ kind ∷ hi ∷ lo ∷ rest) = do
  let body_len = be_u16 hi lo
  fail_if (ltb (length rest) body_len) malformed
  packet_type ← packet_type_of kind
  ok (record {
    version = version;
    packet_type = packet_type;
    body = take body_len rest;
    raw = take (eapol_hdr_len + body_len) (version ∷ kind ∷ hi ∷ lo ∷ rest);
  })
parse _ = err malformed

-- None where the code panics: the body's length has to fit in 16 bits.
unfoldable pub encode : ℕ → PacketType → List ℕ → Option (List ℕ)
encode version packet_type body =
    if ltb u16_max (length body)
    then none
    else some ((version ∷ packet_number packet_type ∷ u16_bytes (length body)) ++ body)
