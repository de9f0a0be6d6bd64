-- ===== src/Eapol/Frame/RoundTrip.antt =====
-- Building a frame and reading it back (crates/caw-eapol/src/lib.rs, `Eapol`).
use caw.Prelude.{
  ℕ, suc, ◌+◌, List, ◌∷◌, ◌++◌, ◌≡◌, refl, some, ok, ◌≤◌, arith, length, length-append, take-append,
  le→not_ltb,
}
use caw.Prelude.Words.{u16_bytes, u16_max, be_u16-bytes}
use caw.Eapol.Frame.{
  PacketType, eap_packet, start_packet, logoff_packet, key_packet, packet_number, packet_type_of,
  parse, encode, eapol_hdr_len,
}

packet_type-number : (kind : PacketType) → packet_type_of (packet_number kind) ≡ ok kind
unfolding packet_type_of packet_number
packet_type-number eap_packet = refl
packet_type-number start_packet = refl
packet_type-number logoff_packet = refl
packet_type-number key_packet = refl

encode-eq-some :
    (version : ℕ) (kind : PacketType) (body frame : List ℕ)
    → encode version kind body ≡ some frame
    → (length body ≤ u16_max)
      × (frame ≡ version ∷ packet_number kind ∷ (u16_bytes (length body) ++ body))
unfolding encode
encode-eq-some version kind body frame e = ground arith

-- The declared length is the body's, and the header's four bytes stand before it.
parse_built :
    (version : ℕ) (kind : PacketType) (body padding : List ℕ)
    → length body ≤ u16_max
    → parse (version ∷ packet_number kind ∷ (u16_bytes (length body) ++ (body ++ padding)))
      ≡ ok (record {
        version = version;
        packet_type = kind;
        body = body;
        raw = version ∷ packet_number kind ∷ (u16_bytes (length body) ++ body);
      })
unfolding parse u16_bytes
parse_built version kind body padding short =
    let long : length body ≤ length (body ++ padding) = omega (arith, length-append body padding) in
    let whole : eapol_hdr_len + length body ≡ suc (suc (suc (suc (length body)))) = omega arith in
    rw (
      be_u16-bytes (length body) (omega arith),
      le→not_ltb _ _ long,
      packet_type-number kind,
      whole,
      take-append (length body) body padding refl,
    )

-- A frame that can be built parses to its parts, and its raw bytes are the frame, whatever
-- padding follows it.
pub parse_frame-encode :
    (version : ℕ) (kind : PacketType) (body padding frame : List ℕ)
    → encode version kind body ≡ some frame
    → parse (frame ++ padding)
      ≡ ok (record { version = version; packet_type = kind; body = body; raw = frame })
unfolding u16_bytes
parse_frame-encode version kind body padding frame e =
    let (short, same) = encode-eq-some version kind body frame e in
    rw same (parse_built version kind body padding short)
