-- ===== src/Eap/Exchange.antt =====
-- The lock step of the TLS-based methods (crates/caw-eapol/src/eap/frag.rs, `Exchange`).
pub mod Safety
pub mod Party
pub mod Converse
use caw.Prelude.{
  ℕ, Bool, true, false, not, List, [], ◌∷◌, if◌then◌else◌, Option, none, some, Result, ok, err,
  is_empty,
}
use caw.Eap.Error.{Error, fragment_out_of_order}
use caw.Eap.Frag
use caw.Eap.Frag.{
  Fragment, Reassembler, Fragmenter, new_reassembler, new_fragmenter, all_sent, queue,
}

pub record Exchange : Type 0 where
  pub inbound : Reassembler
  pub outbound : Fragmenter
  pub base_flags : ℕ
  pub mirror_version : Bool

pub data Incoming : Type 0 where
  restart : Incoming
  reply : List ℕ → Incoming
  message : List ℕ → Incoming

unfoldable pub new : ℕ → Bool → Exchange
new fragment_size mirror_version = record {
  inbound = new_reassembler;
  outbound = new_fragmenter fragment_size;
  base_flags = 0;
  mirror_version = mirror_version;
}

unfoldable pub empty_reply : Exchange → List ℕ
empty_reply x = x.base_flags ∷ []

unfoldable pub mirror : Exchange → Fragment → Exchange
mirror x f = if x.mirror_version then record x { base_flags = Frag.version f } else x

-- The next fragment of a message that is being sent; `none` is a panic.
unfoldable pub send_next : Exchange → Option (Exchange × Result Incoming Error)
send_next x = elim (Frag.next x.outbound x.base_flags) [
  | none ↦ none
  | some (g, none) ↦ none
  | some (g, some bytes) ↦ some (record x { outbound = g }, ok (reply bytes))
]

unfoldable pub received : Exchange → Result (Option (List ℕ)) Error → Result Incoming Error
received x (err e) = err e
received x (ok none) = ok (reply (empty_reply x))
received x (ok (some bytes)) = ok (message bytes)

unfoldable pub take_in : Exchange → Fragment → Exchange × Result Incoming Error
take_in x f =
    let (inbound, r) = Frag.push x.inbound f in
    let x' : Exchange = record x { inbound = inbound } in (x', received x' r)

unfoldable pub on_fragment : Exchange → Fragment → Option (Exchange × Result Incoming Error)
on_fragment x f =
    if Frag.start f
    then some (record x { inbound = Frag.reset x.inbound }, ok restart)
    else if not (all_sent x.outbound)
    then (if not (is_empty f.bytes) then some (x, err fragment_out_of_order) else send_next x)
    else some (take_in x f)

unfoldable pub on_request : Exchange → List ℕ → Option (Exchange × Result Incoming Error)
on_request x type_data = elim (Frag.parse type_data) [
  | err e ↦ some (x, err e)
  | ok f ↦ on_fragment (mirror x f) f
]

-- `none` is a panic, `some (x, none)` a message with nothing to send.
unfoldable pub send : Exchange → List ℕ → Option (Exchange × Option (List ℕ))
send x bytes =
    if is_empty bytes
    then some (x, none)
    else elim (Frag.next (queue x.outbound bytes) x.base_flags) [
      | none ↦ none
      | some (g, out) ↦ some (record x { outbound = g }, out)
    ]
