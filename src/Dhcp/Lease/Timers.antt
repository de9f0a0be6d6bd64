-- ===== src/Dhcp/Lease/Timers.antt =====
-- What an accepted DHCPACK says, and the order of a lease's timers
-- (crates/caw-dhcp/src/client.rs, `Lease::from_ack`).
use caw.Prelude.{
  ℕ, ◌≤◌, ◌≡◌, refl, sym, ap, ◌↔◌, false, Option, some, ok, arith, >>=-eq-ok, ok_or-eq-ok,
  fail_if-eq-ok,
}
use caw.Dhcp.Addr.{Ipv4Addr, IsAddr, is_unspecified}
use caw.Dhcp.Mask.{prefix_len_from_mask, prefix_len-mask_iff}
use caw.Dhcp.Options.{
  DhcpOption, subnet_mask, lease_time, MessageType, ack, opt_subnet_mask, opt_lease_time, opt_t1,
  opt_t2,
}
use caw.Dhcp.Message.{Message, get, type_of, server_of}
use caw.Dhcp.Lease.{
  Lease, check_ack, mask_of, lease_time_of, renew_of, rebind_of, make_lease, from_ack, netmask,
}

-- What makes a message grant a lease over an address, with the mask that it names.
pub record Grants (msg : Message) (mask : Ipv4Addr) (l : Lease) : Type 0 where
  pub is_ack : type_of msg ≡ some ack
  pub has_address : is_unspecified msg.yiaddr ≡ false
  pub has_mask : get msg opt_subnet_mask ≡ some (subnet_mask mask)
  pub has_prefix : prefix_len_from_mask mask ≡ some l.prefix_len
  pub has_lease_time : get msg opt_lease_time ≡ some (lease_time l.lease_secs)
  pub has_server : server_of msg ≡ some l.server
  pub made : l ≡ make_lease msg l.prefix_len l.lease_secs l.server

check_ack_ok : (o : Option MessageType) (u : Unit {0}) → check_ack o ≡ ok u → o ≡ some ack
unfolding check_ack
check_ack_ok o u h = ground arith

mask_of_ok :
    (o : Option DhcpOption) (mask : Ipv4Addr) → mask_of o ≡ ok mask → o ≡ some (subnet_mask mask)
unfolding mask_of
mask_of_ok o mask h = ground arith

lease_time_of_ok :
    (o : Option DhcpOption) (t : ℕ) → lease_time_of o ≡ ok t → o ≡ some (lease_time t)
unfolding lease_time_of
lease_time_of_ok o t h = ground arith

from_ack→Grants :
    (msg : Message) (l : Lease) → from_ack msg ≡ ok l → (mask : Ipv4Addr) × Grants msg mask l
unfolding from_ack make_lease
from_ack→Grants msg l h =
    let (u, e1, h1) = >>=-eq-ok _ _ h in
    let (v, e2, h2) = >>=-eq-ok _ _ h1 in
    let (mask, e3, h3) = >>=-eq-ok _ _ h2 in
    let (len, e4, h4) = >>=-eq-ok _ _ h3 in
    let (secs, e5, h5) = >>=-eq-ok _ _ h4 in
    let (server, e6, h6) = >>=-eq-ok _ _ h5 in
    let e : make_lease msg len secs server ≡ l = cc h6 in
    rw (← e) (
      mask,
      record {
        is_ack = check_ack_ok _ u e1;
        has_address = fail_if-eq-ok _ _ v e2;
        has_mask = mask_of_ok _ mask e3;
        has_prefix = ok_or-eq-ok _ _ len e4;
        has_lease_time = lease_time_of_ok _ secs e5;
        has_server = ok_or-eq-ok _ _ server e6;
        made = refl;
      },
    )

Grants→from_ack :
    (msg : Message) (l : Lease) (mask : Ipv4Addr) → Grants msg mask l → from_ack msg ≡ ok l
unfolding from_ack check_ack mask_of lease_time_of
Grants→from_ack msg l mask g =
    rw (g.is_ack, g.has_address, g.has_mask, g.has_prefix, g.has_lease_time, g.has_server)
      (ap ok (sym g.made))

-- A message yields the lease `l` exactly when it is an ACK that assigns an address and carries a
-- mask without holes, a lease time and a server id, and `l` is made of these.
pub from_ack_iff :
    (msg : Message) (l : Lease) → (from_ack msg ≡ ok l) ↔ ((mask : Ipv4Addr) × Grants msg mask l)
from_ack_iff msg l = (from_ack→Grants msg l, λ p. Grants→from_ack msg l p.0 p.1)

renew_of_le : (o : Option DhcpOption) (lease_secs : ℕ) → renew_of o lease_secs ≤ lease_secs
unfolding renew_of
renew_of_le o n = ground arith

rebind_of_bounds :
    (o : Option DhcpOption) (renew lease_secs : ℕ)
    → renew ≤ lease_secs
    → (renew ≤ rebind_of o renew lease_secs) × (rebind_of o renew lease_secs ≤ lease_secs)
unfolding rebind_of
rebind_of_bounds o renew n h = ground arith

-- The timers of a lease in their order.
pub record IsOrdered (l : Lease) : Type 0 where
  pub renew_first : l.renew_secs ≤ l.rebind_secs
  pub rebind_next : l.rebind_secs ≤ l.lease_secs

-- Whatever timers the server sends, an accepted lease renews no later than it rebinds, and
-- rebinds no later than it ends.
pub from_ack-IsOrdered : (msg : Message) (l : Lease) → from_ack msg ≡ ok l → IsOrdered l
unfolding make_lease
from_ack-IsOrdered msg l h =
    let (_, g) = from_ack→Grants msg l h in
    let renew = renew_of_le (get msg opt_t1) l.lease_secs in
    let bounds =
      rebind_of_bounds (get msg opt_t2) (renew_of (get msg opt_t1) l.lease_secs) l.lease_secs
        renew in
    rw g.made (record { renew_first = bounds.0; rebind_next = bounds.1 })

-- The mask of an accepted lease is the mask that the server sent, if that has four octets of a
-- byte each.
pub netmask-from_ack :
    (msg : Message) (l : Lease) (mask : Ipv4Addr)
    → from_ack msg ≡ ok l
    → get msg opt_subnet_mask ≡ some (subnet_mask mask)
    → IsAddr mask
    → netmask l ≡ mask
unfolding netmask
netmask-from_ack msg l mask h e v =
    let (sent, g) = from_ack→Grants msg l h in
    let same : sent ≡ mask = ground (arith, g.has_mask) in
    let prefix : prefix_len_from_mask mask ≡ some l.prefix_len = rw same at g.has_prefix in
    rw ((prefix_len-mask_iff l.prefix_len mask v).0 prefix, netmask)
