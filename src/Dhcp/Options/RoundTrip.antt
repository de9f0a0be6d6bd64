-- ===== src/Dhcp/Options/RoundTrip.antt =====
-- An option that is encoded and decoded again (crates/caw-dhcp/src/options.rs).
use caw.Prelude.{
  ℕ, ◌*◌, ◌%◌, ◌≤◌, ◌<◌, ◌≡◌, refl, ap, ◌≢◌, true, false, Bool, List, [], ◌∷◌, ◌++◌, ◌==◌, ok,
  length, take_all, arith, ◌||◌, min, ◌⊎◌,
}
use caw.Prelude.Words.{IsU32, be_u32-bytes, u32_bytes}
use caw.Prelude.Utf8.{is_utf8, from_utf8_lossy_id}
use caw.Dhcp.Addr.{Ipv4Addr, octets}
use caw.Dhcp.Options.{
  DhcpOption, subnet_mask, router, dns, host_name, requested_ip, lease_time, message_type,
  server_id, parameter_request, t1, t2, client_id, other_option, MessageType, from_code, type_code,
  code, discover, other, opt_pad, opt_end, opt_overload, decode_option, ipv4_list, chunks,
  octets_of, tlv, encode_option, ipv4, read_u32, read_type,
}

-- A code of its own: none of the codes that have a variant.
abbrev pub has_variant : ℕ → Bool
has_variant c =
    c == 1
    || c == 3
    || c == 6
    || c == 12
    || c == 50
    || c == 51
    || c == 53
    || c == 54
    || c == 55
    || c == 58
    || c == 59
    || c == 61

-- The options that the wire can say: no longer than a length byte, no empty list of addresses,
-- and no variant `Other` under a code that means something else.
abbrev pub IsEncodable : DhcpOption → Type 0
IsEncodable (subnet_mask a) = Unit {0}
IsEncodable (router l) = (1 ≤ length l) × (length l ≤ 63)
IsEncodable (dns l) = (1 ≤ length l) × (length l ≤ 63)
IsEncodable (host_name s) = (is_utf8 s ≡ true) × (length s ≤ 255)
IsEncodable (requested_ip a) = Unit {0}
IsEncodable (lease_time t) = IsU32 t
IsEncodable (message_type (other c)) = (c ≡ 0) ⊎ (8 < c)
IsEncodable (message_type _) = Unit {0}
IsEncodable (server_id a) = Unit {0}
IsEncodable (parameter_request bytes) = length bytes ≤ 255
IsEncodable (t1 t) = IsU32 t
IsEncodable (t2 t) = IsU32 t
IsEncodable (client_id bytes) = length bytes ≤ 255
IsEncodable (other_option c bytes) =
    (length bytes ≤ 255)
    × (has_variant c ≡ false)
    × (c ≢ opt_pad)
    × (c ≢ opt_end)
    × (c ≢ opt_overload)

-- The bytes behind the length byte.
unfoldable pub payload : DhcpOption → List ℕ
payload (subnet_mask a) = octets a
payload (router l) = octets_of l
payload (dns l) = octets_of l
payload (host_name s) = s
payload (requested_ip a) = octets a
payload (lease_time t) = u32_bytes t
payload (message_type mt) = type_code mt ∷ []
payload (server_id a) = octets a
payload (parameter_request bytes) = bytes
payload (t1 t) = u32_bytes t
payload (t2 t) = u32_bytes t
payload (client_id bytes) = bytes
payload (other_option c bytes) = bytes

length-octets_of : (l : List Ipv4Addr) → length (octets_of l) ≡ 4 * length l
unfolding octets_of
length-octets_of [] = omega arith
length-octets_of (x ∷ xs) = omega (arith, length-octets_of xs)

chunks-octets_of : (l : List Ipv4Addr) → chunks (octets_of l) ≡ l
unfolding octets_of chunks
chunks-octets_of [] = refl
chunks-octets_of (x ∷ xs) = ap (λ t. x ∷ t) (chunks-octets_of xs)

ipv4_list-octets_of : (l : List Ipv4Addr) → 1 ≤ length l → ipv4_list (octets_of l) ≡ ok l
unfolding ipv4_list
ipv4_list-octets_of [] h = absurd (omega arith)
ipv4_list-octets_of (x ∷ xs) h =
    ground (arith, length-octets_of (x ∷ xs), chunks-octets_of (x ∷ xs))

from_code-type_code :
    (mt : MessageType) → IsEncodable (message_type mt) → from_code (type_code mt) ≡ mt
unfolding from_code type_code
from_code-type_code discover h = refl
from_code-type_code (other c) h = ground arith
from_code-type_code _ h = refl

pub length-payload : (o : DhcpOption) → IsEncodable o → length (payload o) ≤ 255
unfolding payload u32_bytes
length-payload (router l) h = omega (arith, length-octets_of l)
length-payload (dns l) h = omega (arith, length-octets_of l)
length-payload (host_name s) h = h.1
length-payload (parameter_request bytes) h = h
length-payload (client_id bytes) h = h
length-payload (other_option c bytes) h = h.0
length-payload _ h = omega arith

read_u32-bytes : (t : ℕ) → IsU32 t → read_u32 (u32_bytes t) ≡ ok t
unfolding read_u32 u32_bytes
read_u32-bytes t h = rw (be_u32-bytes t h)

ipv4-octets : (a : Ipv4Addr) → ipv4 (octets a) ≡ ok a
unfolding ipv4
ipv4-octets a = refl

read_type-code :
    (mt : MessageType)
    → IsEncodable (message_type mt)
    → read_type (type_code mt ∷ []) ≡ ok (message_type mt)
unfolding read_type
read_type-code mt h = rw (from_code-type_code mt h)

decode_option-other :
    (c : ℕ) (bytes : List ℕ)
    → has_variant c ≡ false
    → decode_option c bytes ≡ ok (other_option c bytes)
unfolding decode_option
decode_option-other c bytes h = ground arith

-- The payload under the option's code is the option.
pub decode_option-payload :
    (o : DhcpOption) → IsEncodable o → decode_option (code o) (payload o) ≡ ok o
unfolding decode_option code payload
decode_option-payload (subnet_mask a) h = rw (ipv4-octets a)
decode_option-payload (requested_ip a) h = rw (ipv4-octets a)
decode_option-payload (server_id a) h = rw (ipv4-octets a)
decode_option-payload (router l) h = rw (ipv4_list-octets_of l h.0)
decode_option-payload (dns l) h = rw (ipv4_list-octets_of l h.0)
decode_option-payload (host_name s) h = ap (λ t. ok (host_name t)) (from_utf8_lossy_id s h.0)
decode_option-payload (lease_time t) h = rw (read_u32-bytes t h)
decode_option-payload (t1 t) h = rw (read_u32-bytes t h)
decode_option-payload (t2 t) h = rw (read_u32-bytes t h)
decode_option-payload (message_type mt) h = read_type-code mt h
decode_option-payload (parameter_request bytes) h = refl
decode_option-payload (client_id bytes) h = refl
decode_option-payload (other_option c bytes) h = decode_option-other c bytes h.1

tlv_lem :
    (out : List ℕ) (c : ℕ) (bytes : List ℕ)
    → length bytes ≤ 255
    → tlv out c bytes ≡ out ++ (c ∷ (length bytes ∷ bytes))
unfolding tlv
tlv_lem out c bytes h =
    let short : min (length bytes) 255 ≡ length bytes = omega arith in
    let byte : length bytes % 256 ≡ length bytes = omega arith in
    rw (short, byte, take_all (length bytes) bytes (omega arith))

-- What `encode_option` appends: the code, the length and the payload.
pub encode_option-payload :
    (o : DhcpOption) (out : List ℕ)
    → IsEncodable o
    → encode_option o out ≡ out ++ (code o ∷ (length (payload o) ∷ payload o))
unfolding encode_option code payload
encode_option-payload (subnet_mask a) out h = tlv_lem out _ _ (length-payload (subnet_mask a) h)
encode_option-payload (router l) out h = tlv_lem out _ _ (length-payload (router l) h)
encode_option-payload (dns l) out h = tlv_lem out _ _ (length-payload (dns l) h)
encode_option-payload (message_type mt) out h = tlv_lem out _ _ (length-payload (message_type mt) h)
encode_option-payload o out h = tlv_lem out _ _ (length-payload o h)
