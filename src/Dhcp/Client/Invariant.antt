-- ===== src/Dhcp/Client/Invariant.antt =====
-- What holds of the client between two inputs (crates/caw-dhcp/src/client.rs).
use caw.Prelude.{
  ℕ, ◌≤◌, ◌<◌, ◌≡◌, refl, List, [], ◌∷◌, Option, none, some, arith, Result-cases, inl, inr,
}
use caw.Prelude.Words.{u32_max}
use caw.Dhcp.Addr.{Ipv4Addr}
use caw.Dhcp.Options.{MessageType}
use caw.Dhcp.Message
use caw.Dhcp.Message.{Message, server_of, type_of}
use caw.Dhcp.Lease.{Lease, from_ack}
use caw.Dhcp.Lease.Timers.{IsOrdered, from_ack-IsOrdered}
use caw.Dhcp.Client.{
  State, init, selecting, requesting, bound, renewing, rebinding, Timer, Input, start_input,
  datagram, timeout, Dhcp4, max_tries, min_renew_interval, new, age, halve_renew_interval, start,
  on_offer, on_ack, on_nak, dispatch, on_message, on_datagram,
}
use caw.Dhcp.Client.Poll.{
  give_up, resend_discover, resend_request, resend_renewal, resend_rebinding, retransmit_in,
  retransmit, enter_renewing, enter_rebinding, expire, on_timeout, poll, run,
}

-- The lease and the server that a state has: none without an exchange, a server alone once an
-- offer is taken, and a lease with the server that granted it from the ACK on.
abbrev pub Holds : State → Option Lease → Option Ipv4Addr → Type 0
Holds init lease server = (lease ≡ none) × (server ≡ none)
Holds selecting lease server = (lease ≡ none) × (server ≡ none)
Holds requesting lease server = (lease ≡ none) × ((s : Ipv4Addr) × (server ≡ some s))
Holds bound lease server = (l : Lease) × (lease ≡ some l) × (server ≡ some l.server) × IsOrdered l
Holds renewing lease server =
    (l : Lease) × (lease ≡ some l) × (server ≡ some l.server) × IsOrdered l
Holds rebinding lease server =
    (l : Lease) × (lease ≡ some l) × (server ≡ some l.server) × IsOrdered l

pub record IsConsistent (c : Dhcp4) : Type 0 where
  pub holds : Holds c.state c.lease c.server
  pub tries_bound : c.tries < max_tries
  pub interval_floor : min_renew_interval ≤ c.renew_interval
  pub elapsed_bound : c.elapsed ≤ u32_max

pub new-IsConsistent : (mac : List ℕ) (xid : ℕ) → IsConsistent (new mac xid)
unfolding new
new-IsConsistent mac xid = record {
  holds = (refl, refl);
  tries_bound = omega arith;
  interval_floor = omega arith;
  elapsed_bound = omega arith;
}

on_ack-IsConsistent : (c : Dhcp4) (msg : Message) → IsConsistent c → IsConsistent (on_ack c msg).0
unfolding on_ack
on_ack-IsConsistent c msg h = elim (Result-cases (from_ack msg)) [
  | inl (l, e) ↦
      rw (e, on_ack)
        (record {
          holds = (l, refl, refl, from_ack-IsOrdered msg l e);
          tries_bound = omega arith;
          interval_floor = h.interval_floor;
          elapsed_bound = h.elapsed_bound;
        })
  | inr (x, e) ↦ rw (e, on_ack) h
]

on_offer-IsConsistent :
    (c : Dhcp4) (msg : Message)
    → c.state ≡ selecting
    → IsConsistent c
    → IsConsistent (on_offer c msg).0
unfolding on_offer
on_offer-IsConsistent c msg s h = ground arith

on_nak-IsConsistent : (c : Dhcp4) → IsConsistent c → IsConsistent (on_nak c).0
unfolding on_nak
on_nak-IsConsistent c h = ground arith

dispatch-IsConsistent :
    (s : State) (t : Option MessageType) (c : Dhcp4) (msg : Message)
    → c.state ≡ s
    → IsConsistent c
    → IsConsistent (dispatch s t c msg).0
unfolding dispatch
dispatch-IsConsistent s t c msg e h =
    ground (arith, on_offer-IsConsistent c msg, on_ack-IsConsistent c msg, on_nak-IsConsistent c)

on_message-IsConsistent :
    (c : Dhcp4) (msg : Message) → IsConsistent c → IsConsistent (on_message c msg).0
unfolding on_message
on_message-IsConsistent c msg h =
    ground (arith, dispatch-IsConsistent c.state (type_of msg) c msg refl)

on_datagram-IsConsistent :
    (c : Dhcp4) (bytes : List ℕ) → IsConsistent c → IsConsistent (on_datagram c bytes).0
unfolding on_datagram
on_datagram-IsConsistent c bytes h = elim (Result-cases (Message.decode bytes)) [
  | inl (msg, e) ↦ rw (e, on_datagram) (on_message-IsConsistent c msg h)
  | inr (x, e) ↦ rw (e, on_datagram) h
]

start-IsConsistent : (c : Dhcp4) (xid : ℕ) → IsConsistent c → IsConsistent (start c xid).0
unfolding start
start-IsConsistent c xid h = ground arith

retransmit_in-IsConsistent :
    (s : State) (c : Dhcp4) → c.state ≡ s → IsConsistent c → IsConsistent (retransmit_in s c).0
unfolding retransmit_in give_up resend_discover resend_request resend_renewal resend_rebinding age
    halve_renew_interval
retransmit_in-IsConsistent s c e h = ground arith

enter_renewing-IsConsistent :
    (c : Dhcp4) → c.state ≡ bound → IsConsistent c → IsConsistent (enter_renewing c).0
unfolding enter_renewing
enter_renewing-IsConsistent c e h = ground arith

enter_rebinding-IsConsistent : (c : Dhcp4) → IsConsistent c → IsConsistent (enter_rebinding c).0
unfolding enter_rebinding
enter_rebinding-IsConsistent c h = ground arith

expire-IsConsistent : (c : Dhcp4) → IsConsistent c → IsConsistent (expire c).0
unfolding expire
expire-IsConsistent c h = ground arith

on_timeout-IsConsistent : (c : Dhcp4) (t : Timer) → IsConsistent c → IsConsistent (on_timeout c t).0
unfolding on_timeout retransmit
on_timeout-IsConsistent c t h = ground (
  arith,
  retransmit_in-IsConsistent c.state c refl h,
  enter_renewing-IsConsistent c,
  enter_rebinding-IsConsistent c h,
  expire-IsConsistent c h,
)

-- Every input keeps a consistent machine consistent: its lease and server are those of its state,
-- the timers of its lease are in order, its count of tries, which the first transmission does not
-- raise, stays below `max_tries`, its renewal interval stands at a minute at least, and its count
-- of seconds fits its word.
pub poll-IsConsistent : (c : Dhcp4) (i : Input) → IsConsistent c → IsConsistent (poll c i).0
unfolding poll
poll-IsConsistent c (start_input xid) h = start-IsConsistent c xid h
poll-IsConsistent c (datagram bytes) h = on_datagram-IsConsistent c bytes h
poll-IsConsistent c (timeout t) h = on_timeout-IsConsistent c t h

run_from-IsConsistent : (is : List Input) (c : Dhcp4) → IsConsistent c → IsConsistent (run c is).0
unfolding run
run_from-IsConsistent [] c h = h
run_from-IsConsistent (i ∷ is) c h = run_from-IsConsistent is (poll c i).0 (poll-IsConsistent c i h)

-- A new machine is consistent after any inputs in any order.
pub run-IsConsistent :
    (mac : List ℕ) (xid : ℕ) (is : List Input) → IsConsistent (run (new mac xid) is).0
run-IsConsistent mac xid is = run_from-IsConsistent is (new mac xid) (new-IsConsistent mac xid)
