-- ===== src/Dhcp/Client.antt =====
-- The DHCPv4 client's state machine (crates/caw-dhcp/src/client.rs, `Dhcp4`). A method that
-- mutates the machine returns the new machine with its actions.
pub mod Poll
pub mod Invariant
pub mod Replies
pub mod Retries
pub mod Sent
pub mod Renewal
use caw.Prelude.{
  ℕ, ◌+◌, ◌-◌, ◌*◌, ◌/◌, ◌%◌, ◌^◌, Bool, true, false, not, ◌&&◌, ◌||◌, List, [], ◌∷◌, ◌++◌, ◌==◌,
  leb, if◌then◌else◌, Option, none, some, Result, ok, err, take, min, max, bit_and,
}
use caw.Prelude.Words.{u32_max, u16_max, bytes_eq}
use caw.Dhcp.Addr.{Ipv4Addr, unspecified, broadcast_addr, Error}
use caw.Dhcp.Options.{
  DhcpOption, message_type, client_id, host_name, parameter_request, requested_ip, server_id,
  MessageType, discover, offer, request, ack, nak, opt_subnet_mask, opt_router, opt_dns,
  opt_lease_time, opt_t1, opt_t2,
}
use caw.Dhcp.Message
use caw.Dhcp.Message.{
  Message, type_of, server_of, new_request, bootreply, flag_broadcast, htype_ethernet,
}
use caw.Dhcp.Lease.{Lease, from_ack}

abbrev pub param_request : List ℕ
param_request = opt_subnet_mask ∷ opt_router ∷ opt_dns ∷ opt_lease_time ∷ opt_t1 ∷ opt_t2 ∷ []

abbrev pub min_renew_interval : ℕ
min_renew_interval = 60

abbrev pub max_tries : ℕ
max_tries = 4

pub data State : Type 0 where
  init selecting requesting bound renewing rebinding : State

pub data Timer : Type 0 where
  retransmit_timer renew_timer rebind_timer expire_timer : Timer

pub data Reason : Type 0 where
  nak_reason expired : Reason

pub data Input : Type 0 where
  start_input : ℕ → Input
  datagram : List ℕ → Input
  timeout : Timer → Input

pub data Action : Type 0 where
  broadcast_action : List ℕ → Action
  unicast : Ipv4Addr → List ℕ → Action
  set_timer : Timer → ℕ → Action
  configured : Lease → Action
  deconfigure : Reason → Action
  failed : Action

pub record Dhcp4 : Type 0 where
  pub mac : List ℕ
  pub hostname : Option (List ℕ)
  pub xid : ℕ
  pub state : State
  pub server : Option Ipv4Addr
  pub offered : Ipv4Addr
  pub lease : Option Lease
  pub tries : ℕ
  pub elapsed : ℕ
  pub renew_interval : ℕ

unfoldable pub new : List ℕ → ℕ → Dhcp4
new mac xid = record {
  mac = mac;
  hostname = none;
  xid = xid;
  state = init;
  server = none;
  offered = unspecified;
  lease = none;
  tries = 0;
  elapsed = 0;
  renew_interval = min_renew_interval;
}

unfoldable pub with_hostname : Dhcp4 → List ℕ → Dhcp4
with_hostname c hostname = record c { hostname = some hostname }

-- `4u32 << tries.min(4)`, a second less or more by a bit of the transaction id.
unfoldable pub backoff : Dhcp4 → ℕ
backoff c =
    let base = 4 * 2 ^ min c.tries 4 in
    if c.xid / 2 ^ bit_and c.tries 31 % 2 == 0 then base - 1 else base + 1

abbrev hostname_option : Option (List ℕ) → List DhcpOption
hostname_option none = []
hostname_option (some name) = host_name name ∷ []

unfoldable pub base : Dhcp4 → MessageType → Message
unfolding new_request
base c kind = record (new_request c.xid c.mac) {
  secs = min c.elapsed u16_max;
  options =
      (message_type kind ∷ client_id (htype_ethernet ∷ c.mac) ∷ hostname_option c.hostname)
      ++ (parameter_request param_request ∷ []);
}

unfoldable pub discover_message : Dhcp4 → Message
discover_message c = record (base c discover) { flags = flag_broadcast }

abbrev server_option : Option Ipv4Addr → List DhcpOption
server_option none = []
server_option (some server) = server_id server ∷ []

unfoldable pub request_selecting_message : Dhcp4 → Message
request_selecting_message c =
    let msg = base c request in
    record msg {
      flags = flag_broadcast;
      options = (msg.options ++ (requested_ip c.offered ∷ [])) ++ server_option c.server;
    }

abbrev leased_addr : Option Lease → Ipv4Addr
leased_addr none = unspecified
leased_addr (some l) = l.addr

unfoldable pub request_renew_message : Dhcp4 → Message
request_renew_message c = record (base c request) { ciaddr = leased_addr c.lease }

unfoldable pub discover_bytes : Dhcp4 → List ℕ
discover_bytes c = Message.encode (discover_message c)

unfoldable pub request_selecting : Dhcp4 → List ℕ
request_selecting c = Message.encode (request_selecting_message c)

unfoldable pub request_renew : Dhcp4 → List ℕ
request_renew c = Message.encode (request_renew_message c)

unfoldable pub broadcast : Dhcp4 → List ℕ → List Action
broadcast c bytes = broadcast_action bytes ∷ set_timer retransmit_timer (backoff c) ∷ []

-- `elapsed` saturates.
unfoldable pub age : Dhcp4 → Dhcp4
age c = record c { elapsed = min (c.elapsed + backoff c) u32_max; tries = c.tries + 1 }

unfoldable pub halve_renew_interval : Dhcp4 → Dhcp4
halve_renew_interval c = record c { renew_interval = max (c.renew_interval / 2) min_renew_interval }

unfoldable pub start : Dhcp4 → ℕ → Dhcp4 × List Action
start c xid =
    let c' : Dhcp4 = record c {
      xid = xid;
      state = selecting;
      server = none;
      offered = unspecified;
      lease = none;
      tries = 0;
      elapsed = 0;
    } in
    (c', broadcast c' (discover_bytes c'))

unfoldable pub on_offer : Dhcp4 → Message → Dhcp4 × List Action
on_offer c msg = elim (server_of msg) [
  | none ↦ (c, [])
  | some server ↦
      let c' : Dhcp4 = record c {
        server = some server;
        offered = msg.yiaddr;
        state = requesting;
        tries = 0;
      } in
      (c', broadcast c' (request_selecting c'))
]

unfoldable pub on_ack : Dhcp4 → Message → Dhcp4 × List Action
on_ack c msg = elim (from_ack msg) [
  | err e ↦ (c, [])
  | ok lease ↦ (
    record c { state = bound; server = some lease.server; tries = 0; lease = some lease },
    set_timer renew_timer lease.renew_secs
        ∷ set_timer rebind_timer lease.rebind_secs
        ∷ set_timer expire_timer lease.lease_secs
        ∷ configured lease
        ∷ [],
  )
]

unfoldable pub on_nak : Dhcp4 → Dhcp4 × List Action
on_nak c = (record c { state = init; server = none; lease = none }, deconfigure nak_reason ∷ [])

-- The match on the state and the message's type.
unfoldable pub dispatch : State → Option MessageType → Dhcp4 → Message → Dhcp4 × List Action
dispatch selecting (some offer) c msg = on_offer c msg
dispatch requesting (some ack) c msg = on_ack c msg
dispatch renewing (some ack) c msg = on_ack c msg
dispatch rebinding (some ack) c msg = on_ack c msg
dispatch requesting (some nak) c msg = on_nak c
dispatch renewing (some nak) c msg = on_nak c
dispatch rebinding (some nak) c msg = on_nak c
dispatch _ _ c msg = (c, [])

-- A reply to this client's exchange.
unfoldable pub is_ours : Dhcp4 → Message → Bool
is_ours c msg = msg.op == bootreply && (msg.xid == c.xid && bytes_eq (take 6 msg.chaddr) c.mac)

unfoldable pub on_message : Dhcp4 → Message → Dhcp4 × List Action
on_message c msg = if is_ours c msg then dispatch c.state (type_of msg) c msg else (c, [])

unfoldable pub on_datagram : Dhcp4 → List ℕ → Dhcp4 × List Action
on_datagram c bytes = elim (Message.decode bytes) [ err e ↦ (c, []) | ok msg ↦ on_message c msg ]
