-- ===== src/Netlink/Request/Dump.antt =====
-- The replies to a dump, among messages of other exchanges (crates/caw-netlink/src/lib.rs,
-- `Socket::request`).
use mathlib.Core.Path.{subst}
use caw.Prelude.{
  ℕ, ◌≤◌, Bool, true, false, List, [], ◌∷◌, ◌++◌, ◌==◌, ◌≡◌, refl, ap, ◌∙◌, arith, ok, length, All,
  le→not_ltb, if◌then◌else◌, Bool-cases, inl, inr, ==_iff,
}
use caw.Netlink.{Message, u32_at}
use caw.Netlink.Parsed.{IsMessage}
use caw.Netlink.Request.{
  Handled, handled, refused, Outcome, waiting, returned, and_then, after, on_message, request,
  is_multi, nlmsg_done,
}
use caw.Netlink.Request.Exchange.{datagrams, together, and_then-same, exchange, receive-exchange}

-- The replies to the request, in their order.
abbrev pub own : ℕ → List Message → List Message
own want_seq [] = []
own want_seq (m ∷ more) = if m.seq == want_seq then m ∷ own want_seq more else own want_seq more

-- A part of a dump: multipart, and no message that controls the exchange.
pub record IsPart (m : Message) : Type 0 where
  pub multi : is_multi m.flags ≡ true
  pub family : 5 ≤ m.kind

module _ {S : Type 0} where
  abbrev pub then_handle : Handled S → (S → Handled S) → Handled S
  then_handle (handled s) next = next s
  then_handle (refused s e) next = refused s e

  -- A handler over the parts of a dump, up to the first it refuses.
  abbrev pub handled_all : (Message → S → Handled S) → S → List Message → Handled S
  handled_all handler s [] = handled s
  handled_all handler s (m ∷ more) =
      then_handle (handler m s) (λ behind. handled_all handler behind more)

  after-then_handle :
      (h : Handled S) (f : S → Outcome S) (g : S → Handled S)
      → ((s : S) → f s ≡ after false (g s))
      → and_then (after true h) f ≡ after false (then_handle h g)
  unfolding and_then after
  after-then_handle (handled s) f g same = same s
  after-then_handle (refused s e) f g same = refl

  module _ (little : Bool) (handler : Message → S → Handled S) (want_seq : ℕ) where
    on_message-stray :
        (s : S) (m : Message)
        → (m.seq == want_seq) ≡ false
        → on_message little handler want_seq s m ≡ waiting s
    unfolding on_message
    on_message-stray s m other = rw other refl

    on_message-part :
        (s : S) (m : Message)
        → (m.seq == want_seq) ≡ true
        → IsPart m
        → on_message little handler want_seq s m ≡ after true (handler m s)
    unfolding on_message
    on_message-part s m ours part =
        let high : 5 ≤ m.kind = part.family in
        let multi : is_multi m.flags ≡ true = part.multi in ground arith

    on_message-done :
        (s : S) (m : Message)
        → (m.seq == want_seq) ≡ true
        → m.kind ≡ nlmsg_done
        → on_message little handler want_seq s m ≡ returned s
    unfolding on_message
    on_message-done s m ours last = rw (ours, last) refl

    exchange-own :
        (s : S) (ms : List Message)
        → exchange little handler want_seq s ms
          ≡ exchange little handler want_seq s (own want_seq ms)
    unfolding and_then
    exchange-own s [] = refl
    exchange-own s (m ∷ more) = elim (Bool-cases (m.seq == want_seq)) [
      | inl same ↦ rw same (
          and_then-same (on_message little handler want_seq s m) _ _
            (λ behind. exchange-own behind more))
      | inr other ↦ rw (other, on_message-stray s m other) (exchange-own s more)
    ]

    own-seq : (ms : List Message) → All (λ m. (m.seq == want_seq) ≡ true) (own want_seq ms)
    own-seq [] = tt
    own-seq (m ∷ more) = elim (Bool-cases (m.seq == want_seq)) [
      | inl same ↦ rw same (same, own-seq more)
      | inr other ↦ rw other (own-seq more)
    ]

    -- The parts of a dump and its end, whatever follows.
    exchange-dump :
        (s : S) (parts later : List Message) (last : Message)
        → All IsPart parts
        → last.kind ≡ nlmsg_done
        → All (λ m. (m.seq == want_seq) ≡ true) (parts ++ (last ∷ later))
        → exchange little handler want_seq s (parts ++ (last ∷ later))
          ≡ after false (handled_all handler s parts)
    unfolding and_then after
    exchange-dump s [] later last fit ends (ours, _) = rw (on_message-done s last ours ends) refl
    exchange-dump s (m ∷ parts) later last (part, fit) ends (ours, all_ours) =
        rw (on_message-part s m ours part) (
          after-then_handle (handler m s) _ (λ behind. handled_all handler behind parts)
            (λ behind. exchange-dump behind parts later last fit ends all_ours))

-- A request that has been sent whole, and whose replies arrive in datagrams that fit the buffer, in
-- any grouping and among messages of other exchanges: when the messages that carry its sequence
-- number are the parts of a dump and then the message that ends it, the handler is given exactly
-- those parts, in their order, up to the first that it refuses, and the request returns what the
-- handler came to, without waiting for more.
pub request-dump :
    {S : Type 0} (little : Bool) (handler : Message → S → Handled S) (msg : List ℕ) (s : S)
    (groups : List (List Message)) (parts later : List Message) (last : Message)
    → 12 ≤ length msg
    → All (All IsMessage) groups
    → own (u32_at little 8 msg) (together groups) ≡ parts ++ (last ∷ later)
    → All IsPart parts
    → last.kind ≡ nlmsg_done
    → request little handler (ok (length msg)) msg s (datagrams little groups)
      ≡ after false (handled_all handler s parts)
unfolding request
request-dump little handler msg s groups parts later last long fit replies part ends =
    let whole : (length msg == length msg) ≡ true = (==_iff (length msg) (length msg)).1 refl in
    let want : ℕ = u32_at little 8 msg in
    let ours : All (λ m. (m.seq == want) ≡ true) (parts ++ (last ∷ later)) =
      subst (λ ms. All (λ m. (m.seq == want) ≡ true) ms) replies
        (own-seq little handler want (together groups)) in
    rw (le→not_ltb (length msg) 12 long, whole)
      (receive-exchange little handler want s groups fit
        ∙ exchange-own little handler want s (together groups)
        ∙ ap (exchange little handler want s) replies
        ∙ exchange-dump little handler want s parts later last part ends ours)
