-- ===== src/Dhcp/Client/Retries.antt =====
-- Retransmissions: their intervals, and their end (crates/caw-dhcp/src/client.rs).
use caw.Prelude.{
  ℕ, zero, suc, ◌+◌, ◌*◌, ◌^◌, ◌≤◌, ◌<◌, ◌≡◌, refl, sym, ap, ◌∙◌, Bool, true, false, List, [], ◌∷◌,
  ◌++◌, none, arith, length, replicate, All, min, lt→not_leb,
}
use native.Mathlib.Nat.{pow-suc}
use mathlib.Core.Path.{subst}
use native.Mathlib.Numerals.{towards_suc}
use caw.Dhcp.Addr.{unspecified}
use caw.Dhcp.Client.{
  State, init, selecting, requesting, bound, renewing, rebinding, retransmit_timer, Input, timeout,
  Action, broadcast_action, set_timer, failed, Dhcp4, max_tries, backoff, broadcast, age,
}
use caw.Dhcp.Client.Poll.{
  give_up, resend_discover, resend_request, retransmit_in, retransmit, on_timeout, poll, run,
}

-- 4 seconds doubled at each retransmission, to 64, and a second less or more.
pub backoff_bounds :
    (c : Dhcp4) → (4 * 2 ^ min c.tries 4 ≤ backoff c + 1) × (backoff c ≤ 4 * 2 ^ min c.tries 4 + 1)
unfolding backoff
backoff_bounds c = ground arith

abbrev pub asks : State → Bool
asks selecting = true
asks requesting = true
asks _ = false

abbrev pub retransmissions : ℕ → List Input
retransmissions n = replicate n (timeout retransmit_timer)

-- A transmission to every server, and the timer for the next.
abbrev pub IsSend : List Action → Type 0
IsSend (broadcast_action bytes ∷ set_timer retransmit_timer secs ∷ []) = Unit {0}
IsSend _ = ⊥

-- The seconds until the next transmission.
abbrev pub wait_of : List Action → ℕ
wait_of (broadcast_action bytes ∷ set_timer retransmit_timer secs ∷ []) = secs
wait_of _ = 0

abbrev pub total_wait : List (List Action) → ℕ
total_wait [] = 0
total_wait (x ∷ xs) = wait_of x + total_wait xs

-- What another transmission does to the machine.
record SendsOnce (c : Dhcp4) (p : Dhcp4 × List Action) : Type 0 where
  aged : p.0 ≡ age c
  sends : IsSend p.1
  waits : wait_of p.1 ≡ backoff (age c)

one_more :
    (s : State) (c : Dhcp4)
    → asks s ≡ true
    → c.tries + 1 < max_tries
    → SendsOnce c (retransmit_in s c)
unfolding retransmit_in resend_discover resend_request broadcast
one_more selecting c a h = rw (lt→not_leb _ _ h) (record { aged = refl; sends = tt; waits = refl })
one_more requesting c a h = rw (lt→not_leb _ _ h) (record { aged = refl; sends = tt; waits = refl })
one_more init c a h = absurd (cc)
one_more bound c a h = absurd (cc)
one_more renewing c a h = absurd (cc)
one_more rebinding c a h = absurd (cc)

one_more_poll :
    (c : Dhcp4)
    → asks c.state ≡ true
    → c.tries + 1 < max_tries
    → SendsOnce c (poll c (timeout retransmit_timer))
unfolding poll on_timeout retransmit
one_more_poll c a h = one_more c.state c a h

the_last :
    (c : Dhcp4)
    → asks c.state ≡ true
    → max_tries ≤ c.tries + 1
    → poll c (timeout retransmit_timer)
      ≡ (record c { state = init; server = none; offered = unspecified }, failed ∷ [])
unfolding poll on_timeout retransmit retransmit_in give_up
the_last c a h = ground arith

-- The rest of an exchange that nothing answers, `k` transmissions before its end: those, then the
-- failure, the machine idle with the lease it had, and the waits within a second for each
-- transmission of what is left of 4 + 8 + 16 + 32 seconds.
pub record GivesUp (c : Dhcp4) (k : ℕ) (r : Dhcp4 × List (List Action)) : Type 0 where
  pub sent : List (List Action)
  pub count : length sent ≡ k
  pub all_sends : All IsSend sent
  pub then_fails : r.1 ≡ sent ++ ((failed ∷ []) ∷ [])
  pub ends : r.0.state ≡ init
  pub keeps : r.0.lease ≡ c.lease
  pub at_least : 64 ≤ total_wait r.1 + 4 * 2 ^ (c.tries + 1) + k
  pub at_most : total_wait r.1 + 4 * 2 ^ (c.tries + 1) ≤ 64 + k

pow_next : (t : ℕ) → 2 ^ (t + 1 + 1) ≡ 2 * 2 ^ (t + 1)
pow_next t = simp towards_suc (omega (arith, pow-suc 2 (suc t)))

-- One more transmission in front of an exchange that gives up.
one_before :
    (c : Dhcp4) (k : ℕ) (p : Dhcp4 × List Action) (r : Dhcp4 × List (List Action))
    → SendsOnce c p
    → c.tries + suc (suc k) ≡ max_tries
    → GivesUp (age c) k r
    → GivesUp c (suc k) (r.0, p.1 ∷ r.1)
one_before c k p r one h rest = record {
  sent = p.1 ∷ rest.sent;
  count = ap suc rest.count;
  all_sends = (one.sends, rest.all_sends);
  then_fails = ap (λ t. p.1 ∷ t) rest.then_fails;
  ends = rest.ends;
  keeps = rest.keeps ∙ same_lease;
  at_least = omega (arith, one.waits, interval.0, rest.at_least, next);
  at_most = omega (arith, one.waits, interval.1, rest.at_most, next);
}
  where
    same_lease : (age c).lease ≡ c.lease
    same_lease = unfold age in refl

    later : (age c).tries ≡ c.tries + 1
    later = unfold age in refl

    next : 2 ^ ((age c).tries + 1) ≡ 2 * 2 ^ (c.tries + 1)
    next = rw later (pow_next c.tries)

    small : min (age c).tries 4 ≡ c.tries + 1
    small = omega (arith, later)

    interval :
        (4 * 2 ^ (c.tries + 1) ≤ backoff (age c) + 1)
        × (backoff (age c) ≤ 4 * 2 ^ (c.tries + 1) + 1)
    interval = rw small at (backoff_bounds (age c))

-- A machine that asks for an address, with `suc k` tries left, answers that many timeouts of its
-- retransmission timer by `k` more transmissions and one `Failed`, and is idle afterwards.
pub gives_up :
    (k : ℕ) (c : Dhcp4)
    → asks c.state ≡ true
    → c.tries + suc k ≡ max_tries
    → GivesUp c k (run c (retransmissions (suc k)))
unfolding run
gives_up zero c a h =
    let t : c.tries ≡ 3 = omega arith in
    rw (the_last c a (omega arith)) (record {
      sent = [];
      count = refl;
      all_sends = tt;
      then_fails = refl;
      ends = refl;
      keeps = refl;
      at_least = rw t (omega arith);
      at_most = rw t (omega arith);
    })
gives_up (suc k) c a h =
    let one = one_more_poll c a (omega arith) in
    let same : run (age c) (retransmissions (suc k))
        ≡ run (poll c (timeout retransmit_timer)).0 (retransmissions (suc k)) =
      ap (λ (d : Dhcp4). run d (retransmissions (suc k))) (sym one.aged) in
    one_before c k _ _ one h (
      subst (GivesUp (age c) k) same
        (gives_up k (age c) (unfold age in a) (unfold age in omega arith)))
