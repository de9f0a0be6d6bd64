-- ===== src/Netlink/Request/Exchange.antt =====
-- How the replies are cut into datagrams does not matter (crates/caw-netlink/src/lib.rs,
-- `Socket::request`).
use caw.Prelude.{
  ℕ, zero, suc, ◌+◌, ◌-◌, ◌≤◌, Bool, List, [], ◌∷◌, ◌++◌, ◌≡◌, refl, ap, sym, ◌∙◌, arith, ok,
  length, drop, min, replicate, All, length-append, length-replicate, append_assoc, drop-append,
  le→not_ltb,
}
use caw.Netlink.{Message, align, parse}
use caw.Netlink.Words.{message_bytes, length-message_bytes}
use caw.Netlink.Parsed.{IsMessage, parse-message_bytes}
use caw.Netlink.Request.{
  Handled, Outcome, waiting, returned, failed, datagram, and_then, on_message, walk, on_parsed,
  on_received, receive, Received,
}

-- A message with its padding.
abbrev pub packet : Bool → Message → List ℕ
packet little m =
    message_bytes little m.len m.kind m.flags m.seq m.pid m.payload
    ++ replicate (align m.len - m.len) 0

abbrev pub packets : Bool → List Message → List ℕ
packets little [] = []
packets little (m ∷ more) = packet little m ++ packets little more

-- The datagrams that carry groups of messages.
abbrev pub datagrams : Bool → List (List Message) → List Received
datagrams little [] = []
datagrams little (ms ∷ more) =
    datagram (packets little ms) (length (packets little ms)) ∷ datagrams little more

abbrev pub together : List (List Message) → List Message
together [] = []
together (ms ∷ more) = ms ++ together more

length-packet : (little : Bool) (m : Message) → IsMessage m → length (packet little m) ≡ align m.len
length-packet little m fits = omega (
  arith,
  fits.len_exact,
  length-append (message_bytes little m.len m.kind m.flags m.seq m.pid m.payload)
      (replicate (align m.len - m.len) 0),
  length-message_bytes m.len m.kind m.flags m.seq m.pid m.payload little,
  length-replicate {A = ℕ} (align m.len - m.len) 0,
)

module _ {S : Type 0} where
  pub and_then-same :
      (o : Outcome S) (f g : S → Outcome S) → ((s : S) → f s ≡ g s) → and_then o f ≡ and_then o g
  unfolding and_then
  and_then-same (waiting s) f g same = same s
  and_then-same (returned s) f g same = refl
  and_then-same (failed s e) f g same = refl

  and_then_assoc :
      (o : Outcome S) (f g : S → Outcome S)
      → and_then (and_then o f) g ≡ and_then o (λ s. and_then (f s) g)
  unfolding and_then
  and_then_assoc (waiting s) f g = refl
  and_then_assoc (returned s) f g = refl
  and_then_assoc (failed s e) f g = refl

  module _ (little : Bool) (handler : Message → S → Handled S) (want_seq : ℕ) where
    abbrev pub exchange : S → List Message → Outcome S
    exchange s [] = waiting s
    exchange s (m ∷ more) =
        and_then (on_message little handler want_seq s m) (λ behind. exchange behind more)

    pub exchange-append :
        (s : S) (ms more : List Message)
        → exchange s (ms ++ more) ≡ and_then (exchange s ms) (λ behind. exchange behind more)
    unfolding and_then
    exchange-append s [] more = refl
    exchange-append s (m ∷ ms) more =
        and_then-same (on_message little handler want_seq s m) _ _
          (λ behind. exchange-append behind ms more)
        ∙ sym (
            and_then_assoc (on_message little handler want_seq s m) (λ behind. exchange behind ms)
              _)

    walk-packets :
        (fuel : ℕ) (s : S) (ms : List Message)
        → length (packets little ms) ≤ fuel
        → All IsMessage ms
        → walk little handler want_seq fuel s (packets little ms) ≡ exchange s ms
    unfolding walk on_parsed
    walk-packets zero s [] h fit = refl
    walk-packets zero s (m ∷ more) h (fits, fit) = absurd (
        omega (
          arith,
          fits.len_exact,
          length-append (packet little m) (packets little more),
          length-packet little m fits,
        ))
    walk-packets (suc fuel) s [] h fit = refl
    walk-packets (suc fuel) s (m ∷ more) h (fits, fit) =
        let whole : length (packet little m ++ packets little more)
            ≡ align m.len + length (packets little more) =
          omega (
            arith,
            length-append (packet little m) (packets little more),
            length-packet little m fits,
          ) in
        let long : 16 ≤ m.len = omega (arith, fits.len_exact) in
        let behind : drop (min (align m.len) (length (packet little m ++ packets little more)))
              (packet little m ++ packets little more)
            ≡ packets little more =
          drop-append (min (align m.len) (length (packet little m ++ packets little more)))
            (packet little m) (packets little more) (omega (arith, length-packet little m fits)) in
        let read : parse little (packet little m ++ packets little more) ≡ ok m =
          ap (parse little) (
            append_assoc (message_bytes little m.len m.kind m.flags m.seq m.pid m.payload)
              (replicate (align m.len - m.len) 0) (packets little more))
          ∙ parse-message_bytes little m (replicate (align m.len - m.len) 0 ++ packets little more)
              fits in
        rw
          (
            read,
            behind,
            le→not_ltb (length (packet little m ++ packets little more)) 16 (omega arith),
          )
          (and_then-same (on_message little handler want_seq s m) _ _
            (λ later. walk-packets fuel later more (omega arith) fit))

    pub receive-exchange :
        (s : S) (groups : List (List Message))
        → All (All IsMessage) groups
        → receive little handler want_seq s (datagrams little groups) ≡ exchange s (together groups)
    unfolding receive on_received
    receive-exchange s [] fit = refl
    receive-exchange s (ms ∷ more) (fits, fit) =
        let size : ℕ = length (packets little ms) in
        rw (le→not_ltb size size (omega arith), walk-packets size s ms (omega arith) fits)
          (and_then-same (exchange s ms) _ _ (λ behind. receive-exchange behind more fit)
            ∙ sym (exchange-append s ms (together more)))
