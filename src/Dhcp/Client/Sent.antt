-- ===== src/Dhcp/Client/Sent.antt =====
-- What the client sends, as a server reads it (crates/caw-dhcp/src/client.rs, `discover`,
-- `request_selecting` and `request_renew`).
use caw.Prelude.{
  ℕ, ◌≤◌, ◌≡◌, refl, sym, append-nil, append_assoc, true, List, [], ◌∷◌, ◌++◌, Option, none, some,
  ok, arith, length, take, take-append, length-append, replicate, All, All-append,
}
use mathlib.Core.Path.{subst}
use caw.Prelude.Words.{IsU32, IsU16}
use caw.Prelude.Utf8.{is_utf8}
use caw.Dhcp.Addr.{Ipv4Addr, unspecified}
use caw.Dhcp.Options.{
  DhcpOption, requested_ip, MessageType, discover, request, message_type, opt_requested_ip,
  opt_server_id, code,
}
use caw.Dhcp.Options.RoundTrip.{IsEncodable}
use caw.Dhcp.Message
use caw.Dhcp.Message.{Message, get, type_of, server_of, new_request, flag_broadcast}
use caw.Dhcp.Message.RoundTrip.{IsEncodableMessage, decode-encode}
use caw.Dhcp.Client.{
  Dhcp4, base, discover_message, request_selecting_message, request_renew_message, discover_bytes,
  request_selecting, request_renew, leased_addr, server_option,
}

abbrev FitsOption : Option (List ℕ) → Type 0
FitsOption none = Unit {0}
FitsOption (some name) = (is_utf8 name ≡ true) × (length name ≤ 255)

-- A machine for a hardware address of six bytes, with a name that one option can carry.
pub record IsStation (c : Dhcp4) : Type 0 where
  pub mac_len : length c.mac ≡ 6
  pub word_xid : IsU32 c.xid
  pub fits_hostname : FitsOption c.hostname

module _ (c : Dhcp4) (h : IsStation c) where
  base_options :
      (kind : MessageType) → IsEncodable (message_type kind) → All IsEncodable (base c kind).options
  unfolding base
  base_options kind k = ground (arith, h.mac_len)

  base_encodable :
      (kind : MessageType) → IsEncodable (message_type kind) → IsEncodableMessage (base c kind)
  unfolding base new_request
  base_encodable kind k = record {
    word_xid = h.word_xid;
    word_secs = omega arith;
    word_flags = omega arith;
    chaddr_len = omega (arith, length-append c.mac (replicate 10 0), h.mac_len);
    fits_sname = record { text = unfold is_utf8 in refl; no_nul = tt; short = omega arith };
    fits_file = record { text = unfold is_utf8 in refl; no_nul = tt; short = omega arith };
    encodable = base_options kind k;
  }

-- The flags, the client's address and the options are what the three messages change.
amended : (m : Message) (f : ℕ) (addr : Ipv4Addr) (os : List DhcpOption) → Message
amended m f addr os = record m { flags = f; ciaddr = addr; options = os }

amended_encodable :
    (m : Message) (f : ℕ) (addr : Ipv4Addr) (os : List DhcpOption)
    → IsEncodableMessage m
    → IsU16 f
    → All IsEncodable os
    → IsEncodableMessage (amended m f addr os)
unfolding amended
amended_encodable m f addr os e hf ho = record {
  word_xid = e.word_xid;
  word_secs = e.word_secs;
  word_flags = hf;
  chaddr_len = e.chaddr_len;
  fits_sname = e.fits_sname;
  fits_file = e.fits_file;
  encodable = ho;
}

-- What a server reads of any message of this client: which kind it is, and whose.
pub record IsFrom (c : Dhcp4) (kind : MessageType) (msg : Message) : Type 0 where
  pub kind_said : type_of msg ≡ some kind
  pub xid_said : msg.xid ≡ c.xid
  pub mac_said : take 6 msg.chaddr ≡ c.mac

abbrev IsReadBack : Dhcp4 → MessageType → Message → Type 0
IsReadBack c kind m = (Message.decode (Message.encode m) ≡ ok m) × IsFrom c kind m

module _ (c : Dhcp4) (h : IsStation c) where
  base-IsFrom :
      (kind : MessageType) (f : ℕ) (addr : Ipv4Addr) (more : List DhcpOption)
      → IsFrom c kind (amended (base c kind) f addr ((base c kind).options ++ more))
  unfolding base type_of new_request amended
  base-IsFrom kind f addr more = record {
    kind_said = refl;
    xid_said = refl;
    mac_said = take-append 6 c.mac (replicate 10 0) h.mac_len;
  }

  read_back :
      (kind : MessageType) (f : ℕ) (addr : Ipv4Addr) (more : List DhcpOption)
      → IsEncodable (message_type kind)
      → IsU16 f
      → All IsEncodable more
      → IsReadBack c kind (amended (base c kind) f addr ((base c kind).options ++ more))
  read_back kind f addr more k hf hm = (
    decode-encode _ (
        amended_encodable (base c kind) f addr _ (base_encodable c h kind k) hf
          (All-append IsEncodable (base c kind).options more (base_options c h kind k) hm)),
    base-IsFrom kind f addr more,
  )

server_option-IsEncodable : (s : Option Ipv4Addr) → All IsEncodable (server_option s)
server_option-IsEncodable none = tt
server_option-IsEncodable (some s) = (tt, tt)

module _ (c : Dhcp4) (h : IsStation c) where
  discover-IsReadBack : IsReadBack c discover (discover_message c)
  unfolding discover_message base new_request amended
  discover-IsReadBack =
      let options = (base c discover).options in
      subst (λ os. IsReadBack c discover (amended (base c discover) flag_broadcast unspecified os))
        (append-nil options)
        (read_back c h discover flag_broadcast unspecified [] tt (omega arith) tt)

  request_renew-IsReadBack : IsReadBack c request (request_renew_message c)
  unfolding request_renew_message base new_request amended
  request_renew-IsReadBack =
      let options = (base c request).options in
      subst (λ os. IsReadBack c request (amended (base c request) 0 (leased_addr c.lease) os))
        (append-nil options) (read_back c h request 0 (leased_addr c.lease) [] tt (omega arith) tt)

  request_selecting-IsReadBack : IsReadBack c request (request_selecting_message c)
  unfolding request_selecting_message base new_request amended
  request_selecting-IsReadBack =
      let options = (base c request).options in
      let asked : List DhcpOption = requested_ip c.offered ∷ [] in
      subst (λ os. IsReadBack c request (amended (base c request) flag_broadcast unspecified os))
        (sym (append_assoc options asked (server_option c.server)))
        (read_back c h request flag_broadcast unspecified (asked ++ server_option c.server) tt
          (omega arith) (tt, server_option-IsEncodable c.server))

  -- The DISCOVER of a machine with a hardware address of six bytes, a transaction id that fits
  -- its word and a name that fits an option, as a server reads it: of this kind and this client,
  -- with no address of its own, asking that the answer be broadcast.
  pub discover-read :
      (msg : Message) × (Message.decode (discover_bytes c) ≡ ok msg)
      × IsFrom c discover msg
      × (msg.flags ≡ flag_broadcast)
      × (msg.ciaddr ≡ unspecified)
  unfolding discover_bytes discover_message base new_request
  discover-read = let (e, f) = discover-IsReadBack in (discover_message c, e, f, refl, refl)

  -- The REQUEST that answers an offer, of a machine as for the DISCOVER, as a server reads it:
  -- the offered address in option 50 and the chosen server, if any, in option 54, while `ciaddr`
  -- is still zero.
  pub request_selecting-read :
      (msg : Message) × (Message.decode (request_selecting c) ≡ ok msg)
      × IsFrom c request msg
      × (msg.ciaddr ≡ unspecified)
      × (get msg opt_requested_ip ≡ some (requested_ip c.offered))
      × (server_of msg ≡ c.server)
  unfolding request_selecting request_selecting_message base new_request get code server_of
  request_selecting-read =
      let (e, f) = request_selecting-IsReadBack in
      (request_selecting_message c, e, f, refl, ground arith, ground arith)

  -- The REQUEST that renews or rebinds, of a machine as for the DISCOVER, as a server reads it:
  -- the leased address, or zero without a lease, in `ciaddr`, and neither option 50 nor option
  -- 54.
  pub request_renew-read :
      (msg : Message) × (Message.decode (request_renew c) ≡ ok msg)
      × IsFrom c request msg
      × (msg.ciaddr ≡ leased_addr c.lease)
      × (get msg opt_requested_ip ≡ none)
      × (get msg opt_server_id ≡ none)
  unfolding request_renew request_renew_message base new_request get code
  request_renew-read =
      let (e, f) = request_renew-IsReadBack in
      (request_renew_message c, e, f, refl, ground arith, ground arith)
