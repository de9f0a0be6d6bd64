-- ===== src/Dhcp/Message.antt =====
-- The DHCP message: a BOOTP frame, a cookie and the options (crates/caw-dhcp/src/message.rs).
pub mod Fields
pub mod RoundTrip
use caw.Prelude.{
  ℕ, zero, suc, ◌+◌, ◌-◌, ◌<◌, ◌≡◌, Bool, true, false, not, List, [], ◌∷◌, ◌++◌, ◌==◌, ltb,
  if◌then◌else◌, Option, none, some, Result, ok, err, ◌>>=◌, ◌>>◌, fail_if, length, take, drop,
  slice, replicate, get_or, find, find_map, min, max, bit_and,
}
use caw.Prelude.Words.{be_u16, be_u32, u16_bytes, u32_bytes, bytes_eq}
use caw.Prelude.Utf8.{from_utf8_lossy}
use caw.Dhcp.Addr.{Ipv4Addr, ipv4_new, octets, unspecified, Error, malformed}
use caw.Dhcp.Options.{DhcpOption, MessageType, message_type, server_id, code, opt_pad}
use caw.Dhcp.Area.{decode_into, encode_all}

abbrev pub bootrequest : ℕ
bootrequest = 1

abbrev pub bootreply : ℕ
bootreply = 2

abbrev pub htype_ethernet : ℕ
htype_ethernet = 1

abbrev pub flag_broadcast : ℕ
flag_broadcast = 0x8000

abbrev pub magic_cookie : List ℕ
magic_cookie = 0x63 ∷ 0x82 ∷ 0x53 ∷ 0x63 ∷ []

abbrev pub sname_at : ℕ
sname_at = 44

abbrev pub file_at : ℕ
file_at = 108

abbrev pub fixed_len : ℕ
fixed_len = 236

abbrev pub min_len : ℕ
min_len = 300

abbrev pub overload_file : ℕ
overload_file = 1

abbrev pub overload_sname : ℕ
overload_sname = 2

-- `chaddr` holds 16 bytes; the strings are their bytes.
pub record Message : Type 0 where
  pub op : ℕ
  pub htype : ℕ
  pub hlen : ℕ
  pub hops : ℕ
  pub xid : ℕ
  pub secs : ℕ
  pub flags : ℕ
  pub ciaddr : Ipv4Addr
  pub yiaddr : Ipv4Addr
  pub siaddr : Ipv4Addr
  pub giaddr : Ipv4Addr
  pub chaddr : List ℕ
  pub sname : List ℕ
  pub file : List ℕ
  pub options : List DhcpOption

unfoldable pub new_request : ℕ → List ℕ → Message
new_request xid mac = record {
  op = bootrequest;
  htype = htype_ethernet;
  hlen = 6;
  hops = 0;
  xid = xid;
  secs = 0;
  flags = 0;
  ciaddr = unspecified;
  yiaddr = unspecified;
  siaddr = unspecified;
  giaddr = unspecified;
  chaddr = mac ++ replicate 10 0;
  sname = [];
  file = [];
  options = [];
}

abbrev pub ipv4_at : List ℕ → ℕ → Ipv4Addr
ipv4_at buf at =
    ipv4_new (get_or buf at 0) (get_or buf (at + 1) 0) (get_or buf (at + 2) 0)
      (get_or buf (at + 3) 0)

-- The bytes up to the first NUL.
unfoldable pub until_nul : List ℕ → List ℕ
until_nul [] = []
until_nul (b ∷ rest) = if b == 0 then [] else b ∷ until_nul rest

unfoldable pub text_field : List ℕ → List ℕ
text_field bytes = from_utf8_lossy (until_nul bytes)

unfoldable pub text_out : List ℕ → List ℕ → ℕ → List ℕ
text_out buf value width =
    let len = min (length value) (width - 1) in (buf ++ take len value) ++ replicate (width - len) 0

-- A text field, or the options that an overload puts in its place.
unfoldable pub overloaded_field :
    Bool → List ℕ → List DhcpOption → Result (List ℕ × List DhcpOption) Error
overloaded_field true bytes options = do
  (_, options') ← decode_into bytes options
  ok ([], options')
overloaded_field false bytes options = ok (text_field bytes, options)

-- The indices stand below 240, which is checked first.
unfoldable pub decode_fields : List ℕ → List ℕ → List ℕ → List DhcpOption → Message
decode_fields buf sname file options = record {
  op = get_or buf 0 0;
  htype = get_or buf 1 0;
  hlen = get_or buf 2 0;
  hops = get_or buf 3 0;
  xid = be_u32 (get_or buf 4 0) (get_or buf 5 0) (get_or buf 6 0) (get_or buf 7 0);
  secs = be_u16 (get_or buf 8 0) (get_or buf 9 0);
  flags = be_u16 (get_or buf 10 0) (get_or buf 11 0);
  ciaddr = ipv4_at buf 12;
  yiaddr = ipv4_at buf 16;
  siaddr = ipv4_at buf 20;
  giaddr = ipv4_at buf 24;
  chaddr = slice 28 44 buf;
  sname = sname;
  file = file;
  options = options;
}

unfoldable pub decode : List ℕ → Result Message Error
decode buf = do
  fail_if (ltb (length buf) (fixed_len + 4)) malformed
  fail_if (not (bytes_eq (slice fixed_len (fixed_len + 4) buf) magic_cookie)) malformed
  (overload, in_area) ← decode_into (drop (fixed_len + 4) buf) []
  (file, with_file) ←
      overloaded_field (not (bit_and overload overload_file == 0)) (slice file_at fixed_len buf)
        in_area
  (sname, with_sname) ←
      overloaded_field (not (bit_and overload overload_sname == 0)) (slice sname_at file_at buf)
        with_file
  ok (decode_fields buf sname file with_sname)

-- The fixed part up to the hardware address.
unfoldable pub head_bytes : Message → List ℕ
head_bytes m =
    (m.op ∷ m.htype ∷ m.hlen ∷ m.hops ∷ [])
    ++ (u32_bytes m.xid
        ++ (u16_bytes m.secs
            ++ (u16_bytes m.flags
                ++ (octets m.ciaddr ++ (octets m.yiaddr ++ (octets m.siaddr ++ octets m.giaddr))))))

-- `buf.resize(buf.len().max(MIN_LEN), OPT_PAD)`
unfoldable pub pad_to_min : List ℕ → List ℕ
pad_to_min buf = buf ++ replicate (max (length buf) min_len - length buf) opt_pad

unfoldable pub encode : Message → List ℕ
encode m =
    let head = head_bytes m ++ m.chaddr in
    let with_sname = text_out head m.sname (file_at - sname_at) in
    let with_file = text_out with_sname m.file (fixed_len - file_at) in
    pad_to_min (encode_all m.options (with_file ++ magic_cookie))

unfoldable pub get : Message → ℕ → Option DhcpOption
get m c = find (λ o. code o == c) m.options

abbrev as_message_type : DhcpOption → Option MessageType
as_message_type (message_type mt) = some mt
as_message_type _ = none

unfoldable pub type_of : Message → Option MessageType
type_of m = find_map as_message_type m.options

abbrev as_server_id : DhcpOption → Option Ipv4Addr
as_server_id (server_id a) = some a
as_server_id _ = none

unfoldable pub server_of : Message → Option Ipv4Addr
server_of m = find_map as_server_id m.options
