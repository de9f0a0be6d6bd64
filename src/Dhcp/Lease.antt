-- ===== src/Dhcp/Lease.antt =====
-- The lease that a DHCPACK grants (crates/caw-dhcp/src/client.rs, `Lease`).
pub mod Timers
use caw.Prelude.{
  ℕ, ◌+◌, ◌*◌, ◌/◌, ◌%◌, Bool, true, false, not, ◌&&◌, List, [], ltb, if◌then◌else◌, Option, none,
  some, Result, ok, err, ◌>>=◌, ◌>>◌, ok_or, fail_if, find, max,
}
use caw.Dhcp.Addr.{Ipv4Addr, is_unspecified, broadcast_addr, Error, malformed, incomplete}
use caw.Dhcp.Addr
use caw.Dhcp.Mask.{prefix_len_from_mask, mask_from_prefix_len}
use caw.Dhcp.Options.{
  DhcpOption, subnet_mask, router, dns, lease_time, t1, t2, MessageType, ack, nak, opt_subnet_mask,
  opt_router, opt_dns, opt_lease_time, opt_server_id, opt_t1, opt_t2,
}
use caw.Dhcp.Message.{Message, get, type_of, server_of}

pub record Lease : Type 0 where
  pub addr : Ipv4Addr
  pub prefix_len : ℕ
  pub gateway : Option Ipv4Addr
  pub dns_servers : List Ipv4Addr
  pub server : Ipv4Addr
  pub lease_secs : ℕ
  pub renew_secs : ℕ
  pub rebind_secs : ℕ

unfoldable pub check_ack : Option MessageType → Result (Unit {0}) Error
check_ack (some ack) = ok tt
check_ack (some nak) = err Error.nak
check_ack _ = err malformed

unfoldable pub mask_of : Option DhcpOption → Result Ipv4Addr Error
mask_of (some (subnet_mask m)) = ok m
mask_of _ = err (incomplete opt_subnet_mask)

unfoldable pub lease_time_of : Option DhcpOption → Result ℕ Error
lease_time_of (some (lease_time t)) = ok t
lease_time_of _ = err (incomplete opt_lease_time)

unfoldable pub gateway_of : Option DhcpOption → Option Ipv4Addr
gateway_of (some (router list)) = find (λ a. not (is_unspecified a)) list
gateway_of _ = none

unfoldable pub dns_of : Option DhcpOption → List Ipv4Addr
dns_of (some (dns list)) = list
dns_of _ = []

-- The casts to u32 of the quotients taken in u64.
abbrev pub default_t1 : ℕ → ℕ
default_t1 lease_secs = lease_secs / 2 % 4_294_967_296

abbrev pub default_t2 : ℕ → ℕ
default_t2 lease_secs = lease_secs * 7 / 8 % 4_294_967_296

unfoldable pub renew_of : Option DhcpOption → ℕ → ℕ
renew_of (some (t1 t)) lease_secs = if ltb 0 t && ltb t lease_secs then t else default_t1 lease_secs
renew_of _ lease_secs = default_t1 lease_secs

unfoldable pub rebind_of : Option DhcpOption → ℕ → ℕ → ℕ
rebind_of (some (t2 t)) renew_secs lease_secs =
    if ltb renew_secs t && ltb t lease_secs then t else max (default_t2 lease_secs) renew_secs
rebind_of _ renew_secs lease_secs = max (default_t2 lease_secs) renew_secs

unfoldable pub make_lease : Message → ℕ → ℕ → Ipv4Addr → Lease
make_lease msg prefix_len lease_secs server =
    let renew_secs = renew_of (get msg opt_t1) lease_secs in
    record {
      addr = msg.yiaddr;
      prefix_len = prefix_len;
      gateway = gateway_of (get msg opt_router);
      dns_servers = dns_of (get msg opt_dns);
      server = server;
      lease_secs = lease_secs;
      renew_secs = renew_secs;
      rebind_secs = rebind_of (get msg opt_t2) renew_secs lease_secs;
    }

unfoldable pub from_ack : Message → Result Lease Error
from_ack msg = do
  check_ack (type_of msg)
  fail_if (is_unspecified msg.yiaddr) malformed
  mask ← mask_of (get msg opt_subnet_mask)
  prefix_len ← ok_or (prefix_len_from_mask mask) malformed
  lease_secs ← lease_time_of (get msg opt_lease_time)
  server ← ok_or (server_of msg) (incomplete opt_server_id)
  ok (make_lease msg prefix_len lease_secs server)

unfoldable pub netmask : Lease → Ipv4Addr
netmask l = elim (mask_from_prefix_len l.prefix_len) [ some m ↦ m | none ↦ broadcast_addr ]
