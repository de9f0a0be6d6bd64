-- ===== src/Eap/Exchange/Safety.antt =====
-- What any peer can do to an exchange (crates/caw-eapol/src/eap/frag.rs, `Exchange`).
use caw.Prelude.{
  ℕ, ◌≤◌, ◌≡◌, refl, Bool, true, false, List, ◌∷◌, if◌then◌else◌, Option, none, some, Result, ok,
  length, arith, inl, inr, Result-cases, min, ltb, ◌+◌, ◌-◌, ◌==◌, ◌&&◌, take, drop, ◌++◌, bit_or,
  le→not_ltb,
}
use caw.Prelude.Words.{u32_max, u32_bytes}
use caw.Eap.Error.{Error}
use caw.Eap.Frag
use caw.Eap.Frag.{
  Fragment, Fragmenter, max_tls_message, all_sent, next, fragment_bytes, reset, flag_more_fragments,
}
use caw.Eap.Frag.Bounds.{IsBounded, push-IsBounded}
use caw.Eap.Exchange.{
  Exchange, Incoming, message, mirror, send_next, received, take_in, on_fragment, on_request,
}

-- Both directions within their limits: what is held back for the peer, and what it may make the
-- station hold.
pub record IsSafe (x : Exchange) : Type 0 where
  pub holds : IsBounded x.inbound
  pub sends : length x.outbound.pending ≤ u32_max

abbrev pub WithinIncoming : Result Incoming Error → Type 0
WithinIncoming (ok (message bytes)) = length bytes ≤ max_tls_message
WithinIncoming _ = Unit {0}

abbrev pub Returns : Option (Exchange × Result Incoming Error) → Type 0
Returns none = ⊥
Returns (some (x, r)) = IsSafe x × WithinIncoming r

fragment_bytes-some :
    (flags : ℕ) (include_len : Bool) (total : ℕ) (chunk : List ℕ)
    → total ≤ u32_max
    → (out : List ℕ) × (fragment_bytes flags include_len total chunk ≡ some out)
unfolding fragment_bytes
fragment_bytes-some flags true total chunk h =
    (bit_or flags 0x80 ∷ (u32_bytes total ++ chunk), rw (le→not_ltb _ _ h))
fragment_bytes-some flags false total chunk h = (_, refl)

-- With something left to send, a fragment comes out and the rest stays.
next-some :
    (g : Fragmenter) (base : ℕ)
    → length g.pending ≤ u32_max
    → all_sent g ≡ false
    → (sent : ℕ) × (bytes : List ℕ) × (next g base ≡ some (record g { sent = sent }, some bytes))
unfolding next
next-some g base h a =
    let end = min (g.sent + g.fragment_size) (length g.pending) in
    let more_left = ltb end (length g.pending) in
    let flags = if more_left then bit_or base flag_more_fragments else base in
    let (out, e) =
      fragment_bytes-some flags (g.sent == 0 && more_left) (length g.pending)
        (take (end - g.sent) (drop g.sent g.pending)) h in
    (end, out, rw (a, e))

mirror-IsSafe : (x : Exchange) (f : Fragment) → IsSafe x → IsSafe (mirror x f)
unfolding mirror
mirror-IsSafe x f h = ground arith

take_in-Returns : (x : Exchange) (f : Fragment) → IsSafe x → Returns (some (take_in x f))
unfolding take_in received
take_in-Returns x f h = ground (arith, push-IsBounded x.inbound f h.holds)

send_next-Returns : (x : Exchange) → IsSafe x → all_sent x.outbound ≡ false → Returns (send_next x)
unfolding send_next
send_next-Returns x h a =
    let (sent, bytes, e) = next-some x.outbound x.base_flags h.sends a in
    rw (e, send_next) (record { holds = h.holds; sends = h.sends }, tt)

reset-IsBounded : (x : Exchange) → IsBounded (reset x.inbound)
unfolding reset
reset-IsBounded x = record { room = omega arith }

on_fragment-Returns : (x : Exchange) (f : Fragment) → IsSafe x → Returns (on_fragment x f)
unfolding on_fragment
on_fragment-Returns x f h =
    ground (arith, send_next-Returns x h, take_in-Returns x f h, reset-IsBounded x)

-- No request of a peer makes an exchange panic whose buffers are within their limits: it always
-- returns, it stays within these limits, and a message that it delivers is 64 KiB at most.
pub on_request-Returns :
    (x : Exchange) (type_data : List ℕ) → IsSafe x → Returns (on_request x type_data)
unfolding on_request
on_request-Returns x type_data h = elim (Result-cases (Frag.parse type_data)) [
  | inl (f, e) ↦ rw (e, on_request) (on_fragment-Returns (mirror x f) f (mirror-IsSafe x f h))
  | inr (c, e) ↦ rw (e, on_request) (h, tt)
]
