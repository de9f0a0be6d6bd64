-- ===== src/Dhcp/Options.antt =====
-- The options and their values (crates/caw-dhcp/src/options.rs).
pub mod RoundTrip
use caw.Prelude.{
  ℕ, zero, suc, ◌+◌, ◌-◌, ◌%◌, Bool, true, false, List, [], ◌∷◌, ◌++◌, ◌==◌, ltb, not, ◌||◌,
  if◌then◌else◌, min, Result, ok, err, ◌>>=◌, ◌>>◌, fail_if, length, take, drop, is_empty, bit_or,
}
use caw.Prelude.Words.{be_u32, u32_bytes}
use caw.Prelude.Utf8.{from_utf8_lossy}
use caw.Dhcp.Addr.{Ipv4Addr, ipv4_new, octets, Error, malformed}

abbrev pub opt_pad : ℕ
opt_pad = 0

abbrev pub opt_subnet_mask : ℕ
opt_subnet_mask = 1

abbrev pub opt_router : ℕ
opt_router = 3

abbrev pub opt_dns : ℕ
opt_dns = 6

abbrev pub opt_hostname : ℕ
opt_hostname = 12

abbrev pub opt_requested_ip : ℕ
opt_requested_ip = 50

abbrev pub opt_lease_time : ℕ
opt_lease_time = 51

abbrev pub opt_overload : ℕ
opt_overload = 52

abbrev pub opt_message_type : ℕ
opt_message_type = 53

abbrev pub opt_server_id : ℕ
opt_server_id = 54

abbrev pub opt_param_request : ℕ
opt_param_request = 55

abbrev pub opt_t1 : ℕ
opt_t1 = 58

abbrev pub opt_t2 : ℕ
opt_t2 = 59

abbrev pub opt_client_id : ℕ
opt_client_id = 61

abbrev pub opt_end : ℕ
opt_end = 255

pub data MessageType : Type 0 where
  discover offer request decline ack nak release inform : MessageType
  other : ℕ → MessageType

unfoldable pub from_code : ℕ → MessageType
from_code code =
    if code == 1
    then discover
    else if code == 2
    then offer
    else if code == 3
    then request
    else if code == 4
    then decline
    else if code == 5
    then ack
    else if code == 6
    then nak
    else if code == 7
    then release
    else if code == 8
    then inform
    else other code

unfoldable pub type_code : MessageType → ℕ
type_code discover = 1
type_code offer = 2
type_code request = 3
type_code decline = 4
type_code ack = 5
type_code nak = 6
type_code release = 7
type_code inform = 8
type_code (other code) = code

pub data DhcpOption : Type 0 where
  subnet_mask : Ipv4Addr → DhcpOption
  router : List Ipv4Addr → DhcpOption
  dns : List Ipv4Addr → DhcpOption
  host_name : List ℕ → DhcpOption
  requested_ip : Ipv4Addr → DhcpOption
  lease_time : ℕ → DhcpOption
  message_type : MessageType → DhcpOption
  server_id : Ipv4Addr → DhcpOption
  parameter_request : List ℕ → DhcpOption
  t1 : ℕ → DhcpOption
  t2 : ℕ → DhcpOption
  client_id : List ℕ → DhcpOption
  other_option : ℕ → List ℕ → DhcpOption

unfoldable pub code : DhcpOption → ℕ
code (subnet_mask _) = opt_subnet_mask
code (router _) = opt_router
code (dns _) = opt_dns
code (host_name _) = opt_hostname
code (requested_ip _) = opt_requested_ip
code (lease_time _) = opt_lease_time
code (message_type _) = opt_message_type
code (server_id _) = opt_server_id
code (parameter_request _) = opt_param_request
code (t1 _) = opt_t1
code (t2 _) = opt_t2
code (client_id _) = opt_client_id
code (other_option c _) = c

-- Slice patterns of the source: any other length is malformed.
unfoldable pub ipv4 : List ℕ → Result Ipv4Addr Error
ipv4 (a ∷ b ∷ c ∷ d ∷ []) = ok (ipv4_new a b c d)
ipv4 _ = err malformed

-- `as_chunks::<4>().0`: an incomplete last chunk is left off.
unfoldable pub chunks : List ℕ → List Ipv4Addr
chunks (a ∷ b ∷ c ∷ d ∷ rest) = ipv4_new a b c d ∷ chunks rest
chunks _ = []

unfoldable pub ipv4_list : List ℕ → Result (List Ipv4Addr) Error
ipv4_list bytes =
    if is_empty bytes || not (length bytes % 4 == 0) then err malformed else ok (chunks bytes)

unfoldable pub read_u32 : List ℕ → Result ℕ Error
read_u32 (a ∷ b ∷ c ∷ d ∷ []) = ok (be_u32 a b c d)
read_u32 _ = err malformed

unfoldable pub read_type : List ℕ → Result DhcpOption Error
read_type (b ∷ []) = ok (message_type (from_code b))
read_type _ = err malformed

unfoldable pub decode_option : ℕ → List ℕ → Result DhcpOption Error
decode_option c bytes =
    if c == opt_subnet_mask
    then ipv4 bytes >>= (λ a. ok (subnet_mask a))
    else if c == opt_router
    then ipv4_list bytes >>= (λ l. ok (router l))
    else if c == opt_dns
    then ipv4_list bytes >>= (λ l. ok (dns l))
    else if c == opt_hostname
    then ok (host_name (from_utf8_lossy bytes))
    else if c == opt_requested_ip
    then ipv4 bytes >>= (λ a. ok (requested_ip a))
    else if c == opt_lease_time
    then read_u32 bytes >>= (λ t. ok (lease_time t))
    else if c == opt_message_type
    then read_type bytes
    else if c == opt_server_id
    then ipv4 bytes >>= (λ a. ok (server_id a))
    else if c == opt_param_request
    then ok (parameter_request bytes)
    else if c == opt_t1
    then read_u32 bytes >>= (λ t. ok (t1 t))
    else if c == opt_t2
    then read_u32 bytes >>= (λ t. ok (t2 t))
    else if c == opt_client_id
    then ok (client_id bytes)
    else ok (other_option c bytes)

-- Append one option, cut to the 255 bytes that its length byte can say.
unfoldable pub tlv : List ℕ → ℕ → List ℕ → List ℕ
tlv out c bytes = let len = min (length bytes) 255 in out ++ (c ∷ (len % 256 ∷ take len bytes))

unfoldable pub octets_of : List Ipv4Addr → List ℕ
octets_of [] = []
octets_of (x ∷ xs) = octets x ++ octets_of xs

unfoldable pub encode_option : DhcpOption → List ℕ → List ℕ
encode_option (subnet_mask a) out = tlv out (code (subnet_mask a)) (octets a)
encode_option (requested_ip a) out = tlv out (code (requested_ip a)) (octets a)
encode_option (server_id a) out = tlv out (code (server_id a)) (octets a)
encode_option (router l) out = tlv out (code (router l)) (octets_of l)
encode_option (dns l) out = tlv out (code (dns l)) (octets_of l)
encode_option (host_name name) out = tlv out (code (host_name name)) name
encode_option (lease_time v) out = tlv out (code (lease_time v)) (u32_bytes v)
encode_option (t1 v) out = tlv out (code (t1 v)) (u32_bytes v)
encode_option (t2 v) out = tlv out (code (t2 v)) (u32_bytes v)
encode_option (message_type mt) out = tlv out (code (message_type mt)) (type_code mt ∷ [])
encode_option (parameter_request bytes) out = tlv out (code (parameter_request bytes)) bytes
encode_option (client_id bytes) out = tlv out (code (client_id bytes)) bytes
encode_option (other_option c bytes) out = tlv out c bytes
