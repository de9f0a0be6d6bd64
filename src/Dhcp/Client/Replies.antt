-- ===== src/Dhcp/Client/Replies.antt =====
-- What a datagram can bring about (crates/caw-dhcp/src/client.rs, `on_datagram`).
use caw.Prelude.{
  ℕ, ◌==◌, ==_iff, ◌≡◌, ◌≢◌, refl, ap, ◌↔◌, ◌⊎◌, inl, inr, Bool, true, false, List, [], ◌∷◌, Option,
  some, ok, arith, Result-cases, Bool-cases, take,
}
use caw.Prelude.Words.{bytes_eq→eq, bytes_eq_self}
use caw.Dhcp.Options.{MessageType, offer, ack, nak}
use caw.Dhcp.Message
use caw.Dhcp.Message.{Message, type_of, server_of, bootreply}
use caw.Dhcp.Lease.{Lease, from_ack}
use caw.Dhcp.Lease.Timers.{from_ack_iff}
use caw.Dhcp.Client.{
  State, selecting, requesting, bound, renewing, rebinding, Timer, Input, start_input, datagram,
  timeout, Action, configured, Dhcp4, start, on_offer, on_ack, on_nak, dispatch, is_ours,
  on_message, on_datagram, broadcast,
}
use caw.Dhcp.Client.Poll.{
  give_up, resend_discover, resend_request, resend_renewal, resend_rebinding, retransmit_in,
  retransmit, enter_renewing, enter_rebinding, expire, on_timeout, poll,
}

abbrev pub Contains : Action → List Action → Type 0
Contains a [] = ⊥
Contains a (x ∷ xs) = (x ≡ a) ⊎ Contains a xs

-- The states that wait for the server's word on a REQUEST.
abbrev pub awaits_ack : State → Bool
awaits_ack requesting = true
awaits_ack renewing = true
awaits_ack rebinding = true
awaits_ack _ = false

-- A reply with the exchange's transaction id and the machine's hardware address.
abbrev pub IsOurs : Dhcp4 → Message → Type 0
IsOurs c msg = (msg.op ≡ bootreply) × (msg.xid ≡ c.xid) × (take 6 msg.chaddr ≡ c.mac)

is_ours_fields : (c : Dhcp4) (msg : Message) → is_ours c msg ≡ true → IsOurs c msg
unfolding is_ours
is_ours_fields c msg h = ground (arith, bytes_eq→eq (take 6 msg.chaddr) c.mac)

fields_are_ours : (c : Dhcp4) (msg : Message) → IsOurs c msg → is_ours c msg ≡ true
unfolding is_ours
fields_are_ours c msg h =
    let same_xid : (msg.xid == c.xid) ≡ true = (==_iff msg.xid c.xid).1 h.1 in
    rw (h.0, same_xid, h.2) (bytes_eq_self c.mac)

-- A datagram of this exchange that grants the lease `l` on the address that `mask` is for.
pub record Accepts (c : Dhcp4) (bytes : List ℕ) (l : Lease) : Type 0 where
  pub msg : Message
  pub decoded : Message.decode bytes ≡ ok msg
  pub ours : IsOurs c msg
  pub waiting : awaits_ack c.state ≡ true
  pub granted : from_ack msg ≡ ok l

from_ack-type : (msg : Message) (l : Lease) → from_ack msg ≡ ok l → type_of msg ≡ some ack
from_ack-type msg l h = ((from_ack_iff msg l).0 h).1.is_ack

on_ack-configured :
    (c : Dhcp4) (msg : Message) (l : Lease)
    → Contains (configured l) (on_ack c msg).1
    → from_ack msg ≡ ok l
unfolding on_ack
on_ack-configured c msg l h = ground arith

on_offer-configured :
    (c : Dhcp4) (msg : Message) (l : Lease) → ¬ Contains (configured l) (on_offer c msg).1
unfolding on_offer broadcast
on_offer-configured c msg l h = ground arith

dispatch-configured :
    (s : State) (t : Option MessageType) (c : Dhcp4) (msg : Message) (l : Lease)
    → Contains (configured l) (dispatch s t c msg).1
    → (awaits_ack s ≡ true) × (from_ack msg ≡ ok l)
unfolding dispatch on_nak
dispatch-configured s t c msg l h =
    ground (arith, on_ack-configured c msg l, on_offer-configured c msg l)

on_message-configured :
    (c : Dhcp4) (msg : Message) (l : Lease)
    → Contains (configured l) (on_message c msg).1
    → (is_ours c msg ≡ true) × (awaits_ack c.state ≡ true) × (from_ack msg ≡ ok l)
unfolding on_message
on_message-configured c msg l h = ground (arith, dispatch-configured c.state (type_of msg) c msg l)

on_datagram-configured :
    (c : Dhcp4) (bytes : List ℕ) (l : Lease)
    → Contains (configured l) (on_datagram c bytes).1
    → Accepts c bytes l
unfolding on_datagram
on_datagram-configured c bytes l h = elim (Result-cases (Message.decode bytes)) [
  | inl (msg, e) ↦
      let (o, w, g) = on_message-configured c msg l (rw (e, on_datagram) at h) in
      record { msg = msg; decoded = e; ours = is_ours_fields c msg o; waiting = w; granted = g }
  | inr (x, e) ↦ absurd (rw (e, on_datagram) at h)
]

retransmit-configured :
    (s : State) (c : Dhcp4) (l : Lease) → ¬ Contains (configured l) (retransmit_in s c).1
unfolding retransmit_in give_up resend_discover resend_request resend_renewal resend_rebinding
    broadcast
retransmit-configured s c l h = ground arith

on_timeout-configured :
    (c : Dhcp4) (t : Timer) (l : Lease) → ¬ Contains (configured l) (on_timeout c t).1
unfolding on_timeout retransmit enter_renewing enter_rebinding expire
on_timeout-configured c t l h = ground (arith, retransmit-configured c.state c l)

configured→Accepts :
    (c : Dhcp4) (i : Input) (l : Lease)
    → Contains (configured l) (poll c i).1
    → (bytes : List ℕ) × (i ≡ datagram bytes) × Accepts c bytes l
unfolding poll
configured→Accepts c (start_input xid) l h = unfold start broadcast in ground arith
configured→Accepts c (datagram bytes) l h = (bytes, refl, on_datagram-configured c bytes l h)
configured→Accepts c (timeout t) l h = absurd (on_timeout-configured c t l h)

abbrev accepted : Dhcp4 → Lease → Dhcp4
accepted c l = record c { state = bound; server = some l.server; tries = 0; lease = some l }

dispatch_ack :
    (s : State) (c : Dhcp4) (msg : Message)
    → awaits_ack s ≡ true
    → dispatch s (some ack) c msg ≡ on_ack c msg
unfolding dispatch
dispatch_ack s c msg h = ground arith

Accepts-poll :
    (c : Dhcp4) (bytes : List ℕ) (l : Lease)
    → Accepts c bytes l
    → ((poll c (datagram bytes)).0 ≡ accepted c l)
      × Contains (configured l) (poll c (datagram bytes)).1
unfolding poll on_datagram on_message on_ack
Accepts-poll c bytes l a =
    rw
      (
        a.decoded,
        on_datagram,
        fields_are_ours c a.msg a.ours,
        from_ack-type a.msg l a.granted,
        dispatch_ack c.state c a.msg a.waiting,
        a.granted,
        on_ack,
      )
      (refl, inr (inr (inr (inl refl))))

-- The machine configures a lease exactly on a datagram that decodes to a reply to its own
-- exchange and hardware address, while it waits for an acknowledgement, and that grants this lease.
pub configured_iff :
    (c : Dhcp4) (i : Input) (l : Lease)
    → Contains (configured l) (poll c i).1
      ↔ ((bytes : List ℕ) × (i ≡ datagram bytes) × Accepts c bytes l)
configured_iff c i l = (configured→Accepts c i l, λ p. rw p.1 ((Accepts-poll c p.0 l p.2).1))

-- Once an input makes the machine configure a lease, the machine is bound and this is its lease.
pub configured-bound :
    (c : Dhcp4) (i : Input) (l : Lease)
    → Contains (configured l) (poll c i).1
    → ((poll c i).0.state ≡ bound) × ((poll c i).0.lease ≡ some l)
configured-bound c i l h =
    let (bytes, e, a) = configured→Accepts c i l h in
    let same : (poll c i).0 ≡ accepted c l = rw e ((Accepts-poll c bytes l a).0) in
    (ap (λ (d : Dhcp4). d.state) same, ap (λ (d : Dhcp4). d.lease) same)

-- A reply that this exchange can use, in fields.
pub record IsReply (c : Dhcp4) (bytes : List ℕ) : Type 0 where
  pub msg : Message
  pub decoded : Message.decode bytes ≡ ok msg
  pub op_reply : msg.op ≡ bootreply
  pub same_xid : msg.xid ≡ c.xid
  pub same_mac : take 6 msg.chaddr ≡ c.mac
  pub expected :
      ((c.state ≡ selecting) × (type_of msg ≡ some offer))
      ⊎ ((awaits_ack c.state ≡ true) × ((type_of msg ≡ some ack) ⊎ (type_of msg ≡ some nak)))

dispatch_expected :
    (s : State) (t : Option MessageType) (c : Dhcp4) (msg : Message)
    → (dispatch s t c msg ≡ (c, []))
      ⊎ (((s ≡ selecting) × (t ≡ some offer))
          ⊎ ((awaits_ack s ≡ true) × ((t ≡ some ack) ⊎ (t ≡ some nak))))
unfolding dispatch
dispatch_expected s t c msg = ground arith

on_datagram_cases : (c : Dhcp4) (bytes : List ℕ) → (on_datagram c bytes ≡ (c, [])) ⊎ IsReply c bytes
unfolding on_datagram on_message
on_datagram_cases c bytes = elim (Result-cases (Message.decode bytes)) [
  | inr (x, e) ↦ inl (rw (e, on_datagram))
  | inl (msg, e) ↦ elim (Bool-cases (is_ours c msg)) [
    | inr foreign ↦ inl (rw (e, on_datagram, foreign))
    | inl ours ↦ elim (dispatch_expected c.state (type_of msg) c msg) [
      | inl idle ↦ inl (rw (e, on_datagram, ours) idle)
      | inr x ↦ inr (
          let (p, q, r) = is_ours_fields c msg ours in
          record { msg = msg; decoded = e; op_reply = p; same_xid = q; same_mac = r; expected = x })
    ]
  ]
]

-- A datagram that changes the machine or makes it act decodes to a BOOTREPLY with the exchange's
-- transaction id and the machine's hardware address, and is an OFFER while selecting, or an ACK or
-- a NAK while one is awaited. Any other datagram leaves the machine as it is, with no action.
pub datagram_effect :
    (c : Dhcp4) (bytes : List ℕ) → poll c (datagram bytes) ≢ (c, []) → IsReply c bytes
unfolding poll
datagram_effect c bytes h = elim (on_datagram_cases c bytes) [
  | inl idle ↦ absurd (h idle)
  | inr reply ↦ reply
]
