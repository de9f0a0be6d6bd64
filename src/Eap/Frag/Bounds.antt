-- ===== src/Eap/Frag/Bounds.antt =====
-- What a peer that has not authenticated can make the station hold
-- (crates/caw-eapol/src/eap/frag.rs, `Reassembler`).
use caw.Prelude.{
  ℕ, ◌≤◌, ◌≡◌, List, Option, none, some, Result, ok, length, arith, Result-cases, inl, inr,
}
use caw.Eap.Error.{Error}
use caw.Eap.Frag.{
  Fragment, Reassembler, in_progress, reset, open_message, absorb, push, max_tls_message,
}

-- What the buffer may hold under a declared length.
abbrev Room : Option ℕ → ℕ → Type 0
Room none len = len ≤ max_tls_message
Room (some declared) len = (len ≤ declared) × (declared ≤ max_tls_message)

pub record IsBounded (r : Reassembler) : Type 0 where
  pub room : Room r.declared (length r.buf)

abbrev pub WithinMessage : Result (Option (List ℕ)) Error → Type 0
WithinMessage (ok (some message)) = length message ≤ max_tls_message
WithinMessage _ = Unit {0}

open_message-IsBounded :
    (r : Reassembler) (f : Fragment) (d : Option ℕ) (r' : Reassembler)
    → IsBounded r
    → open_message r f d ≡ ok r'
    → IsBounded r'
unfolding open_message in_progress
open_message-IsBounded r f d r' h e = ground arith

absorb-IsBounded :
    (r : Reassembler) (f : Fragment)
    → IsBounded r
    → IsBounded (absorb r f).0 × WithinMessage (absorb r f).1
unfolding absorb reset
absorb-IsBounded r f h = ground arith

-- A buffer that holds no more than the declared length, which is 64 KiB at most, or 64 KiB
-- without one, still does after any fragment; and a message that comes out is 64 KiB at most.
pub push-IsBounded :
    (r : Reassembler) (f : Fragment)
    → IsBounded r
    → IsBounded (push r f).0 × WithinMessage (push r f).1
unfolding push
push-IsBounded r f h = elim (Result-cases (open_message r f f.declared_len)) [
  | inl (r', e) ↦ rw (e, push) (absorb-IsBounded r' f (open_message-IsBounded r f _ r' h e))
  | inr (x, e) ↦ rw (e, push) (h, tt)
]
