-- ===== src/Dhcp/Client/Renewal.antt =====
-- How a lease is kept and lost (crates/caw-dhcp/src/client.rs, `enter_renewing`, `retransmit` and
-- `on_timeout`).
use caw.Prelude.{
  ℕ, ◌≤◌, ◌≡◌, refl, inl, inr, List, [], ◌∷◌, Option, none, some, arith, Result-cases, ◌≢◌, ok,
  true,
}
use caw.Dhcp.Addr.{Ipv4Addr}
use caw.Dhcp.Options.{MessageType, nak}
use caw.Dhcp.Message
use caw.Dhcp.Message.{Message, type_of}
use caw.Dhcp.Lease.{Lease}
use caw.Dhcp.Client.{
  State, Timer, retransmit_timer, renew_timer, rebind_timer, expire_timer, is_ours, Input,
  start_input, datagram, timeout, nak_reason, expired, Action, unicast, set_timer, deconfigure,
  Dhcp4, min_renew_interval, start, on_offer, on_ack, on_nak, dispatch, on_message, on_datagram,
  broadcast, age, halve_renew_interval, request_renew,
}
use caw.Dhcp.Client.Poll.{
  give_up, resend_discover, resend_request, resend_renewal, resend_rebinding, retransmit_in,
  retransmit, enter_renewing, enter_rebinding, expire, on_timeout, poll,
}
use caw.Dhcp.Client.Invariant.{IsConsistent}
use caw.Dhcp.Client.Replies.{Contains}

-- A datagram sends nothing to one server.
dispatch-unicast :
    (s : State) (t : Option MessageType) (c : Dhcp4) (msg : Message) (to : Ipv4Addr) (sent : List ℕ)
    → ¬ Contains (unicast to sent) (dispatch s t c msg).1
unfolding dispatch on_offer on_ack on_nak broadcast
dispatch-unicast s t c msg to sent h = ground arith

on_message-unicast :
    (c : Dhcp4) (msg : Message) (to : Ipv4Addr) (sent : List ℕ)
    → ¬ Contains (unicast to sent) (on_message c msg).1
unfolding on_message
on_message-unicast c msg to sent h =
    ground (arith, dispatch-unicast c.state (type_of msg) c msg to sent)

-- A request to one server: there is a lease, the server granted it, and the request renews it.
abbrev pub IsRenewal : Option Lease → Ipv4Addr → List ℕ → List ℕ → Type 0
IsRenewal none to sent request = ⊥
IsRenewal (some l) to sent request = (to ≡ l.server) × (sent ≡ request)

retransmit-unicast :
    (s : State) (c : Dhcp4) (to : Ipv4Addr) (sent : List ℕ)
    → c.state ≡ s
    → IsConsistent c
    → Contains (unicast to sent) (retransmit_in s c).1
    → IsRenewal c.lease to sent (request_renew (retransmit_in s c).0)
unfolding retransmit_in give_up resend_discover resend_request resend_renewal resend_rebinding
    broadcast halve_renew_interval
retransmit-unicast s c to sent e h u = ground arith

enter_renewing-unicast :
    (c : Dhcp4) (to : Ipv4Addr) (sent : List ℕ)
    → Contains (unicast to sent) (enter_renewing c).1
    → IsRenewal c.lease to sent (request_renew (enter_renewing c).0)
unfolding enter_renewing
enter_renewing-unicast c to sent u = ground arith

on_timeout-unicast :
    (c : Dhcp4) (t : Timer) (to : Ipv4Addr) (sent : List ℕ)
    → IsConsistent c
    → Contains (unicast to sent) (on_timeout c t).1
    → IsRenewal c.lease to sent (request_renew (on_timeout c t).0)
unfolding on_timeout retransmit enter_rebinding expire
on_timeout-unicast c t to sent h u =
    ground (arith, retransmit-unicast c.state c to sent refl h, enter_renewing-unicast c to sent)

on_datagram-unicast :
    (c : Dhcp4) (bytes : List ℕ) (to : Ipv4Addr) (sent : List ℕ)
    → ¬ Contains (unicast to sent) (on_datagram c bytes).1
unfolding on_datagram
on_datagram-unicast c bytes to sent = elim (Result-cases (Message.decode bytes)) [
  | inl (msg, e) ↦ rw (e, on_datagram) (on_message-unicast c msg to sent)
  | inr (x, e) ↦ rw (e, on_datagram) (λ h. h)
]

-- A consistent machine sends to one server only while it holds a lease, only to the server that
-- granted it, and only the request that renews it.
pub unicast-IsRenewal :
    (c : Dhcp4) (i : Input) (to : Ipv4Addr) (sent : List ℕ)
    → IsConsistent c
    → Contains (unicast to sent) (poll c i).1
    → IsRenewal c.lease to sent (request_renew (poll c i).0)
unfolding poll
unicast-IsRenewal c (start_input xid) to sent h u = unfold start broadcast in ground arith
unicast-IsRenewal c (datagram bytes) to sent h u = absurd (on_datagram-unicast c bytes to sent u)
unicast-IsRenewal c (timeout t) to sent h u = on_timeout-unicast c t to sent h u

retransmit-interval :
    (s : State) (c : Dhcp4) (secs : ℕ)
    → c.state ≡ s
    → IsConsistent c
    → c.lease ≢ none
    → Contains (set_timer retransmit_timer secs) (retransmit_in s c).1
    → min_renew_interval ≤ secs
unfolding retransmit_in resend_renewal resend_rebinding halve_renew_interval
retransmit-interval s c secs e h l u = ground arith

-- When a timeout reaches a consistent machine that holds a lease, it asks for no other
-- transmission in less than a minute.
pub renew_interval_floor :
    (c : Dhcp4) (t : Timer) (secs : ℕ)
    → IsConsistent c
    → c.lease ≢ none
    → Contains (set_timer retransmit_timer secs) (poll c (timeout t)).1
    → min_renew_interval ≤ secs
unfolding poll on_timeout retransmit enter_renewing enter_rebinding expire
renew_interval_floor c t secs h l u = ground (arith, retransmit-interval c.state c secs refl h l)

-- How a lease goes: by a new exchange, by a NAK for this client, or as its time ends; with the
-- action that takes it off the interface where the exchange is not new.
abbrev pub Gone : Dhcp4 → Input → List Action → Type 0
Gone c (start_input xid) actions = Unit {0}
Gone c (datagram bytes) actions =
    (msg : Message) × (Message.decode bytes ≡ ok msg)
    × (is_ours c msg ≡ true)
    × (type_of msg ≡ some nak)
    × (actions ≡ deconfigure nak_reason ∷ [])
Gone c (timeout t) actions = (t ≡ expire_timer) × (actions ≡ deconfigure expired ∷ [])

dispatch-gone :
    (s : State) (t : Option MessageType) (c : Dhcp4) (msg : Message)
    → c.lease ≢ none
    → (dispatch s t c msg).0.lease ≡ none
    → (t ≡ some nak) × ((dispatch s t c msg).1 ≡ deconfigure nak_reason ∷ [])
unfolding dispatch on_offer on_ack on_nak
dispatch-gone s t c msg l g = ground arith

on_message-gone :
    (c : Dhcp4) (msg : Message)
    → c.lease ≢ none
    → (on_message c msg).0.lease ≡ none
    → (is_ours c msg ≡ true)
      × (type_of msg ≡ some nak)
      × ((on_message c msg).1 ≡ deconfigure nak_reason ∷ [])
unfolding on_message
on_message-gone c msg l g = ground (arith, dispatch-gone c.state (type_of msg) c msg l)

on_datagram-Gone :
    (c : Dhcp4) (bytes : List ℕ)
    → c.lease ≢ none
    → (on_datagram c bytes).0.lease ≡ none
    → Gone c (datagram bytes) (on_datagram c bytes).1
unfolding on_datagram
on_datagram-Gone c bytes l g = elim (Result-cases (Message.decode bytes)) [
  | inl (msg, e) ↦
      let (ours, is_nak, gone) = on_message-gone c msg l (rw (e, on_datagram) at g) in
      (msg, e, ours, is_nak, rw (e, on_datagram) gone)
  | inr (x, e) ↦ absurd (l (rw (e, on_datagram) at g))
]

retransmit-lease : (s : State) (c : Dhcp4) → (retransmit_in s c).0.lease ≡ c.lease
unfolding retransmit_in give_up resend_discover resend_request resend_renewal resend_rebinding age
    halve_renew_interval
retransmit-lease s c = ground arith

on_timeout-Gone :
    (c : Dhcp4) (t : Timer)
    → c.lease ≢ none
    → (on_timeout c t).0.lease ≡ none
    → Gone c (timeout t) (on_timeout c t).1
unfolding on_timeout retransmit enter_renewing enter_rebinding expire
on_timeout-Gone c retransmit_timer l g = ground (arith, retransmit-lease c.state c)
on_timeout-Gone c renew_timer l g = ground arith
on_timeout-Gone c rebind_timer l g = ground arith
on_timeout-Gone c expire_timer l g = ground arith

-- A machine that holds a lease loses it only with a new exchange, with a datagram that is a NAK for
-- this client and exchange, or with the timer that ends the lease; and with the last two its one
-- action takes the configuration off the interface and says which of them it was.
pub lease-Gone :
    (c : Dhcp4) (i : Input) → c.lease ≢ none → (poll c i).0.lease ≡ none → Gone c i (poll c i).1
unfolding poll
lease-Gone c (start_input xid) l g = tt
lease-Gone c (datagram bytes) l g = on_datagram-Gone c bytes l g
lease-Gone c (timeout t) l g = on_timeout-Gone c t l g
