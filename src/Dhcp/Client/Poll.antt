-- ===== src/Dhcp/Client/Poll.antt =====
-- The client's timers, and its entry point (crates/caw-dhcp/src/client.rs, `Dhcp4::poll`).
use caw.Prelude.{
  ◌+◌, ◌-◌, ◌/◌, Bool, true, false, List, [], ◌∷◌, leb, if◌then◌else◌, Option, none, some, max,
}
use caw.Dhcp.Addr.{Ipv4Addr, unspecified, broadcast_addr}
use caw.Dhcp.Client.{
  State, init, selecting, requesting, bound, renewing, rebinding, Timer, retransmit_timer,
  renew_timer, rebind_timer, expire_timer, expired, Input, start_input, datagram, timeout, Action,
  broadcast_action, unicast, set_timer, deconfigure, failed, Dhcp4, max_tries, min_renew_interval,
  discover_bytes, request_selecting, request_renew, broadcast, age, halve_renew_interval, start,
  on_datagram,
}

unfoldable pub give_up : Dhcp4 → Dhcp4 × List Action
give_up c = (record c { state = init; server = none; offered = unspecified }, failed ∷ [])

unfoldable pub resend_discover : Dhcp4 → Dhcp4 × List Action
resend_discover c = let c' = age c in (c', broadcast c' (discover_bytes c'))

unfoldable pub resend_request : Dhcp4 → Dhcp4 × List Action
resend_request c = let c' = age c in (c', broadcast c' (request_selecting c'))

-- `self.server.unwrap_or(Ipv4Addr::BROADCAST)`
abbrev pub renewal_server : Option Ipv4Addr → Ipv4Addr
renewal_server none = broadcast_addr
renewal_server (some server) = server

unfoldable pub resend_renewal : Dhcp4 → Dhcp4 × List Action
resend_renewal c =
    let c' = halve_renew_interval c in
    (
      c',
      unicast (renewal_server c'.server) (request_renew c')
          ∷ set_timer retransmit_timer c'.renew_interval
          ∷ [],
    )

unfoldable pub resend_rebinding : Dhcp4 → Dhcp4 × List Action
resend_rebinding c =
    let c' = halve_renew_interval c in
    (c', broadcast_action (request_renew c') ∷ set_timer retransmit_timer c'.renew_interval ∷ [])

-- `tries` counts the transmissions made after the first, so the guard stops before the fifth.
unfoldable pub retransmit_in : State → Dhcp4 → Dhcp4 × List Action
retransmit_in selecting c = if leb max_tries (c.tries + 1) then give_up c else resend_discover c
retransmit_in requesting c = if leb max_tries (c.tries + 1) then give_up c else resend_request c
retransmit_in renewing c = resend_renewal c
retransmit_in rebinding c = resend_rebinding c
retransmit_in init c = (c, [])
retransmit_in bound c = (c, [])

unfoldable pub retransmit : Dhcp4 → Dhcp4 × List Action
retransmit c = retransmit_in c.state c

-- `-` stops at 0, as `saturating_sub` does.
unfoldable pub enter_renewing : Dhcp4 → Dhcp4 × List Action
enter_renewing c = elim c.lease [
  | none ↦ (c, [])
  | some lease ↦
      let c' : Dhcp4 = record c {
        state = renewing;
        renew_interval = max ((lease.rebind_secs - lease.renew_secs) / 2) min_renew_interval;
      } in
      (
        c',
        unicast lease.server (request_renew c') ∷ set_timer retransmit_timer c'.renew_interval ∷ [],
      )
]

unfoldable pub enter_rebinding : Dhcp4 → Dhcp4 × List Action
enter_rebinding c = elim c.lease [
  | none ↦ (c, [])
  | some lease ↦
      let c' : Dhcp4 = record c {
        state = rebinding;
        renew_interval = max ((lease.lease_secs - lease.rebind_secs) / 2) min_renew_interval;
      } in
      (c', broadcast_action (request_renew c') ∷ set_timer retransmit_timer c'.renew_interval ∷ [])
]

unfoldable pub expire : Dhcp4 → Dhcp4 × List Action
expire c = elim c.lease [
  | none ↦ (c, [])
  | some lease ↦ (record c { state = init; server = none; lease = none }, deconfigure expired ∷ [])
]

abbrev pub is_bound : State → Bool
is_bound bound = true
is_bound _ = false

abbrev pub is_bound_or_renewing : State → Bool
is_bound_or_renewing bound = true
is_bound_or_renewing renewing = true
is_bound_or_renewing _ = false

unfoldable pub on_timeout : Dhcp4 → Timer → Dhcp4 × List Action
on_timeout c retransmit_timer = retransmit c
on_timeout c renew_timer = if is_bound c.state then enter_renewing c else (c, [])
on_timeout c rebind_timer = if is_bound_or_renewing c.state then enter_rebinding c else (c, [])
on_timeout c expire_timer = expire c

unfoldable pub poll : Dhcp4 → Input → Dhcp4 × List Action
poll c (start_input xid) = start c xid
poll c (datagram bytes) = on_datagram c bytes
poll c (timeout timer) = on_timeout c timer

-- The machine after a list of inputs, with all its actions.
unfoldable pub run : Dhcp4 → List Input → Dhcp4 × List (List Action)
run c [] = (c, [])
run c (i ∷ is) = let (c', actions) = poll c i in let (d, rest) = run c' is in (d, actions ∷ rest)
