-- ===== src/Netlink/Request.antt =====
-- A request's replies, as datagrams (crates/caw-netlink/src/lib.rs, `Socket::request`).
pub mod Exchange
pub mod Dump
use caw.Prelude.{
  ℕ, zero, suc, ◌+◌, ◌-◌, ◌/◌, ◌%◌, Bool, true, false, List, [], ◌∷◌, ◌++◌, ltb, ◌==◌,
  if◌then◌else◌, Result, ok, err, length, drop, slice, min,
}
use caw.Netlink.{
  Message, Error, truncated, short_send, overrun, io, kernel, hdr_len, align, u32_at, parse,
}

abbrev pub nlmsg_noop : ℕ
nlmsg_noop = 1

abbrev pub nlmsg_error : ℕ
nlmsg_error = 2

abbrev pub nlmsg_done : ℕ
nlmsg_done = 3

abbrev pub nlmsg_overrun : ℕ
nlmsg_overrun = 4

-- `flags & NLM_F_MULTI != 0`
unfoldable pub is_multi : ℕ → Bool
is_multi flags = flags / 2 % 2 == 1

-- What a receive returns: the bytes that fit with the length of the datagram, or an error.
pub data Received : Type 0 where
  datagram : List ℕ → ℕ → Received
  unreadable : ℕ → Received

-- What a handler returns, with the state it has captured.
pub data Handled (S : Type 0) : Type 0 where
  handled : S → Handled S
  refused : S → Error → Handled S

-- Where an exchange stands: it waits for more, or has returned.
pub data Outcome (S : Type 0) : Type 0 where
  waiting : S → Outcome S
  returned : S → Outcome S
  failed : S → Error → Outcome S

module _ {S : Type 0} where
  -- What follows while the exchange waits.
  unfoldable pub and_then : Outcome S → (S → Outcome S) → Outcome S
  and_then (waiting s) next = next s
  and_then (returned s) next = returned s
  and_then (failed s e) next = failed s e

  unfoldable pub after : Bool → Handled S → Outcome S
  after true (handled s) = waiting s
  after false (handled s) = returned s
  after multi (refused s e) = failed s e

  module _ (little : Bool) (handler : Message → S → Handled S) (want_seq : ℕ) where
    -- One message. The error's sign is turned, as words are.
    unfoldable pub on_message : S → Message → Outcome S
    on_message s msg =
        let code = u32_at little 0 msg.payload in
        if msg.seq == want_seq
        then (if msg.kind == nlmsg_done
            then returned s
            else if msg.kind == nlmsg_error
            then (if ltb (length msg.payload) 4
                then failed s truncated
                else if code == 0
                then returned s
                else failed s (kernel ((4_294_967_296 - code) % 4_294_967_296)))
            else if msg.kind == nlmsg_noop
            then waiting s
            else if msg.kind == nlmsg_overrun
            then failed s overrun
            else after (is_multi msg.flags) (handler msg s))
        else waiting s

    -- A message that is parsed, and the messages behind it.
    unfoldable pub on_parsed :
        (S → List ℕ → Outcome S) → S → List ℕ → Result Message Error → Outcome S
    on_parsed later s rest (err e) = failed s e
    on_parsed later s rest (ok msg) =
        and_then (on_message s msg)
          (λ behind. later behind (drop (min (align msg.len) (length rest)) rest))

    -- The messages of a datagram; a round takes at least sixteen bytes.
    unfoldable pub walk : ℕ → S → List ℕ → Outcome S
    walk zero s rest = waiting s
    walk (suc fuel) s rest =
        if ltb (length rest) hdr_len
        then waiting s
        else on_parsed (walk fuel) s rest (parse little rest)

    unfoldable pub on_received : S → Received → Outcome S
    on_received s (unreadable errno) = failed s (io errno)
    on_received s (datagram bytes actual) =
        if ltb (length bytes) actual then failed s overrun else walk (length bytes) s bytes

    unfoldable pub receive : S → List Received → Outcome S
    receive s [] = waiting s
    receive s (r ∷ more) = and_then (on_received s r) (λ behind. receive behind more)

  -- `Socket::request`: `sent` is what the send returned.
  unfoldable pub request :
      Bool → (Message → S → Handled S) → Result ℕ ℕ → List ℕ → S → List Received → Outcome S
  request little handler sent msg s replies =
      if ltb (length msg) 12 then failed s truncated else send_and_receive sent
    where
      send_and_receive : Result ℕ ℕ → Outcome S
      send_and_receive (err errno) = failed s (io errno)
      send_and_receive (ok n) =
          if n == length msg
          then receive little handler (u32_at little 8 msg) s replies
          else failed s short_send
