-- ===== src/Eap/Exchange/Party.antt =====
-- One round of two exchanges in lock step: one sends a fragment, the other acknowledges or delivers it
-- (crates/caw-eapol/src/eap/frag.rs, `Exchange`).
use caw.Prelude.{
  ℕ, zero, suc, ◌≡◌, Bool, true, false, List, [], ◌∷◌, Option, none, some, Result, ok, err, arith,
}
use caw.Eap.Error.{Error}
use caw.Eap.Frag
use caw.Eap.Frag.{
  Fragment, Reassembler, Fragmenter, new_reassembler, new_fragmenter, all_sent, queue,
  max_tls_message, flag_start, flag_length_included, flag_more_fragments,
}
use caw.Eap.Frag.Pieces.{FlagsAgree, is_version, parse_plain}
use caw.Eap.Exchange.{
  Exchange, restart, reply, message, mirror, on_fragment, on_request, take_in, received, send_next,
}

-- One round: the receiver is given a fragment; it acknowledges, and the sender is given that, or it
-- delivers. `none` is a panic, an error, an answer out of turn or the end of the fuel.
unfoldable pub converse : ℕ → Exchange → Exchange → List ℕ → Option (List ℕ)
converse zero a b bytes = none
converse (suc fuel) a b bytes = elim (on_request b bytes) [
  | none ↦ none
  | some (b', err e) ↦ none
  | some (b', ok restart) ↦ none
  | some (b', ok (message delivered)) ↦ some delivered
  | some (b', ok (reply ack)) ↦ elim (on_request a ack) [
    | none ↦ none
    | some (a', err e) ↦ none
    | some (a', ok restart) ↦ none
    | some (a', ok (message delivered)) ↦ none
    | some (a', ok (reply bytes')) ↦ converse fuel a' b' bytes'
  ]
]

module _ (base : ℕ) where
  -- An end with these directions, at the version `base`.
  abbrev pub party : Reassembler → Fragmenter → Bool → Exchange
  party r g mirrors = record {
    inbound = r;
    outbound = g;
    base_flags = base;
    mirror_version = mirrors;
  }

  pub mirror_same :
      (r : Reassembler) (g : Fragmenter) (mirrors : Bool) (f : Fragment)
      → is_version f.flags base ≡ true
      → mirror (party r g mirrors) f ≡ party r g mirrors
  unfolding mirror Frag.version
  mirror_same r g mirrors f v = ground arith

  pub no_start : (flags : ℕ) → is_version flags base ≡ true → Frag.has_flag flags flag_start ≡ false
  no_start flags v = ground arith

  -- A fragment that is taken in.
  pub on_request_fragment :
      (r r' : Reassembler) (g : Fragmenter) (mirrors : Bool) (bytes : List ℕ) (f : Fragment)
      (out : Result (Option (List ℕ)) Error)
      → Frag.parse bytes ≡ ok f
      → is_version f.flags base ≡ true
      → all_sent g ≡ true
      → Frag.push r f ≡ (r', out)
      → on_request (party r g mirrors) bytes
        ≡ some (party r' g mirrors, received (party r' g mirrors) out)
  unfolding on_request on_fragment take_in Frag.start
  on_request_fragment r r' g mirrors bytes f out p v s q =
      rw (p, on_request, mirror_same r g mirrors f v, no_start f.flags v, s, q)

  -- An acknowledgement that is answered by the next fragment.
  pub on_request_ack :
      (r : Reassembler) (g g' : Fragmenter) (mirrors : Bool) (bytes : List ℕ)
      → FlagsAgree base
      → all_sent g ≡ false
      → Frag.next g base ≡ some (g', some bytes)
      → on_request (party r g mirrors) (base ∷ []) ≡ some (party r g' mirrors, ok (reply bytes))
  unfolding on_request on_fragment send_next Frag.start
  on_request_ack r g g' mirrors bytes k s n =
      let ack : Fragment = record { flags = base; declared_len = none; bytes = [] } in
      rw (
        parse_plain base [] k.no_length_last,
        on_request,
        mirror_same r g mirrors ack k.version_last,
        no_start base k.version_last,
        s,
        send_next,
        n,
        mirror_same r g mirrors ack k.version_last,
      )

-- One round, from the receiver's step and the sender's.
module _ (fuel : ℕ) (a b b' : Exchange) (bytes : List ℕ) where
  pub converse_more :
      (a' : Exchange) (ack bytes' : List ℕ)
      → on_request b bytes ≡ some (b', ok (reply ack))
      → on_request a ack ≡ some (a', ok (reply bytes'))
      → converse (suc fuel) a b bytes ≡ converse fuel a' b' bytes'
  unfolding converse
  converse_more a' ack bytes' eb ea = rw (eb, converse, ea)

  pub converse_last :
      (delivered : List ℕ)
      → on_request b bytes ≡ some (b', ok (message delivered))
      → converse (suc fuel) a b bytes ≡ some delivered
  unfolding converse
  converse_last delivered eb = rw (eb, converse)
