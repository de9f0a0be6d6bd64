-- ===== src/Dhcp/Examples.antt =====
-- A machine that gets a lease, keeps it and loses it: the theorems at concrete inputs
-- (crates/caw-dhcp).
use caw.Prelude.{
  ℕ, List, [], ◌∷◌, ◌++◌, ◌≡◌, ◌≢◌, ◌≤◌, ◌↔◌, refl, arith, inl, inr, some, none, ok, replicate, min,
  ◌+◌, ◌*◌, ◌^◌,
}
use mathlib.Core.Path.{subst}
use caw.Prelude.Utf8.{is_utf8}
use caw.Dhcp.Addr.{Ipv4Addr, ipv4_new, unspecified}
use caw.Dhcp.Mask.{prefix_len_from_mask, mask_from_prefix_len, prefix_len-mask_iff}
use caw.Dhcp.Options.{
  message_type, server_id, lease_time, router, subnet_mask, ack, code, opt_requested_ip,
  requested_ip, request, decode_option,
}
use caw.Dhcp.Options.RoundTrip.{payload, decode_option-payload}
use caw.Dhcp.Area.{decode_into}
use caw.Dhcp.Area.Fuel.{EndsWithin, decode_into-Ends}
use caw.Dhcp.Message
use caw.Dhcp.Message.{Message, new_request, bootreply, get, type_of, server_of}
use caw.Dhcp.Message.RoundTrip.{decode-encode, IsEncodableMessage}
use caw.Dhcp.Lease.{
  Lease, from_ack, check_ack, mask_of, lease_time_of, make_lease, gateway_of, dns_of, renew_of,
  rebind_of,
}
use caw.Prelude.Bits.{count_ones, leading_ones}
use caw.Dhcp.Lease.Timers.{from_ack_iff, IsOrdered, Grants}
use caw.Dhcp.Client.{
  Dhcp4, State, requesting, renewing, datagram, timeout, configured, unicast, set_timer,
  retransmit_timer, expire_timer, request_selecting, request_renew, backoff, halve_renew_interval,
}
use caw.Dhcp.Client.Poll.{poll, run, on_timeout, retransmit, retransmit_in, resend_renewal, expire}
use caw.Dhcp.Client.Invariant.{IsConsistent, poll-IsConsistent}
use caw.Dhcp.Client.Replies.{Accepts, Contains, IsReply, configured_iff, datagram_effect}
use caw.Dhcp.Client.Retries.{backoff_bounds, gives_up, GivesUp, retransmissions}
use caw.Dhcp.Client.Sent.{IsStation, IsFrom, request_selecting-read}
use caw.Dhcp.Client.Renewal.{Gone, unicast-IsRenewal, lease-Gone}

abbrev mac : List ℕ
mac = 2 ∷ 0 ∷ 0 ∷ 0 ∷ 0 ∷ 1 ∷ []

abbrev router_addr : Ipv4Addr
router_addr = ipv4_new 192 168 1 1

abbrev leased : Ipv4Addr
leased = ipv4_new 192 168 1 50

abbrev mask_24 : Ipv4Addr
mask_24 = ipv4_new 255 255 255 0

-- A server's acknowledgement of an hour's lease.
abbrev ack_message : Message
ack_message = record {
  op = bootreply;
  htype = 1;
  hlen = 6;
  hops = 0;
  xid = 7;
  secs = 0;
  flags = 0;
  ciaddr = unspecified;
  yiaddr = leased;
  siaddr = unspecified;
  giaddr = unspecified;
  chaddr = mac ++ replicate 10 0;
  sname = [];
  file = [];
  options =
      message_type ack
      ∷ subnet_mask mask_24
      ∷ router (router_addr ∷ [])
      ∷ lease_time 3600
      ∷ server_id router_addr
      ∷ [];
}

abbrev home : Lease
home = record {
  addr = leased;
  prefix_len = 24;
  gateway = some router_addr;
  dns_servers = [];
  server = router_addr;
  lease_secs = 3600;
  renew_secs = 1800;
  rebind_secs = 3150;
}

abbrev asking : Dhcp4
asking = record {
  mac = mac;
  hostname = some (104 ∷ 105 ∷ []);
  xid = 7;
  state = requesting;
  server = some router_addr;
  offered = leased;
  lease = none;
  tries = 0;
  elapsed = 4;
  renew_interval = 60;
}

abbrev holding : State → Dhcp4
holding s = record asking { state = s; lease = some home }

ack-IsEncodable : IsEncodableMessage ack_message
unfolding is_utf8
ack-IsEncodable = record {
  word_xid = omega arith;
  word_secs = omega arith;
  word_flags = omega arith;
  chaddr_len = refl;
  fits_sname = record { text = refl; no_nul = tt; short = omega arith };
  fits_file = record { text = refl; no_nul = tt; short = omega arith };
  encodable = ground arith;
}

abbrev ack_bytes : List ℕ
ack_bytes = Message.encode ack_message

granted : from_ack ack_message ≡ ok home
unfolding from_ack check_ack type_of mask_of get code prefix_len_from_mask count_ones leading_ones
    lease_time_of server_of make_lease gateway_of dns_of renew_of rebind_of
granted = refl

accepted : Accepts asking ack_bytes home
accepted = record {
  msg = ack_message;
  decoded = decode-encode ack_message ack-IsEncodable;
  ours = (refl, refl, refl);
  waiting = refl;
  granted = granted;
}

consistent : IsConsistent asking
consistent = record {
  holds = (refl, (router_addr, refl));
  tries_bound = omega arith;
  interval_floor = omega arith;
  elapsed_bound = omega arith;
}

home-IsOrdered : IsOrdered home
home-IsOrdered = record { renew_first = omega arith; rebind_next = omega arith }

renewing-IsConsistent : IsConsistent (holding renewing)
renewing-IsConsistent = record {
  holds = (home, refl, refl, home-IsOrdered);
  tries_bound = omega arith;
  interval_floor = omega arith;
  elapsed_bound = omega arith;
}

station : IsStation asking
unfolding is_utf8
station = record { mac_len = refl; word_xid = omega arith; fits_hostname = (refl, omega arith) }

renewing_station : IsStation (holding renewing)
unfolding is_utf8
renewing_station = record {
  mac_len = refl;
  word_xid = omega arith;
  fits_hostname = (refl, omega arith);
}

prefix_len-mask_iff_example :
    (prefix_len_from_mask mask_24 ≡ some 24) ↔ (mask_from_prefix_len 24 ≡ some mask_24)
prefix_len-mask_iff_example = prefix_len-mask_iff 24 mask_24 (record {
  byte_a = omega arith;
  byte_b = omega arith;
  byte_c = omega arith;
  byte_d = omega arith;
})

decode_option-payload_example :
    decode_option (code (lease_time 3600)) (payload (lease_time 3600)) ≡ ok (lease_time 3600)
decode_option-payload_example = decode_option-payload (lease_time 3600) (omega arith)

decode_into-Ends_example :
    EndsWithin 7
      (0 ∷ 1 ∷ 4 ∷ 255 ∷ 255 ∷ 255 ∷ 0 ∷ [])
      0
      []
      (decode_into (0 ∷ 1 ∷ 4 ∷ 255 ∷ 255 ∷ 255 ∷ 0 ∷ []) [])
decode_into-Ends_example = decode_into-Ends (0 ∷ 1 ∷ 4 ∷ 255 ∷ 255 ∷ 255 ∷ 0 ∷ []) []

decode-encode_example : Message.decode (Message.encode ack_message) ≡ ok ack_message
decode-encode_example = decode-encode ack_message ack-IsEncodable

from_ack_iff_example :
    (from_ack ack_message ≡ ok home) ↔ ((mask : Ipv4Addr) × Grants ack_message mask home)
from_ack_iff_example = from_ack_iff ack_message home

poll-IsConsistent_example : IsConsistent (poll asking (datagram ack_bytes)).0
poll-IsConsistent_example = poll-IsConsistent asking (datagram ack_bytes) consistent

configured_iff_example :
    Contains (configured home) (poll asking (datagram ack_bytes)).1
    ↔ ((bytes : List ℕ) × (datagram ack_bytes ≡ datagram bytes) × Accepts asking bytes home)
configured_iff_example = configured_iff asking (datagram ack_bytes) home

ack_configures : Contains (configured home) (poll asking (datagram ack_bytes)).1
ack_configures = (configured_iff asking (datagram ack_bytes) home).1 (ack_bytes, refl, accepted)

ack_acts : poll asking (datagram ack_bytes) ≢ (asking, [])
ack_acts h = subst (λ p. Contains (configured home) p.1) h ack_configures

datagram_effect_example : IsReply asking ack_bytes
datagram_effect_example = datagram_effect asking ack_bytes ack_acts

backoff_bounds_example :
    (4 * 2 ^ min 0 4 ≤ backoff asking + 1) × (backoff asking ≤ 4 * 2 ^ min 0 4 + 1)
backoff_bounds_example = backoff_bounds asking

gives_up_example : GivesUp asking 3 (run asking (retransmissions 4))
gives_up_example = gives_up 3 asking refl refl

request_selecting-read_example :
    (msg : Message) × (Message.decode (request_selecting asking) ≡ ok msg)
    × IsFrom asking request msg
    × (msg.ciaddr ≡ unspecified)
    × (get msg opt_requested_ip ≡ some (requested_ip leased))
    × (server_of msg ≡ some router_addr)
request_selecting-read_example = request_selecting-read asking station

retransmits :
    Contains (set_timer retransmit_timer 60) (poll (holding renewing) (timeout retransmit_timer)).1
unfolding poll on_timeout retransmit retransmit_in resend_renewal halve_renew_interval
retransmits = inr (inl refl)

renews :
    Contains
      (unicast router_addr (request_renew (poll (holding renewing) (timeout retransmit_timer)).0))
      (poll (holding renewing) (timeout retransmit_timer)).1
unfolding poll on_timeout retransmit retransmit_in resend_renewal halve_renew_interval request_renew
renews = inl refl

unicast-IsRenewal_example :
    (router_addr ≡ router_addr)
    × (request_renew (poll (holding renewing) (timeout retransmit_timer)).0
        ≡ request_renew (poll (holding renewing) (timeout retransmit_timer)).0)
unicast-IsRenewal_example =
    unicast-IsRenewal (holding renewing) (timeout retransmit_timer) router_addr
      (request_renew (poll (holding renewing) (timeout retransmit_timer)).0) renewing-IsConsistent
      renews

ends : (poll (holding renewing) (timeout expire_timer)).0.lease ≡ none
unfolding poll on_timeout expire
ends = refl

lease-Gone_example :
    Gone
      (holding renewing)
      (timeout expire_timer)
      (poll (holding renewing) (timeout expire_timer)).1
lease-Gone_example = lease-Gone (holding renewing) (timeout expire_timer) (λ e. cc) ends
