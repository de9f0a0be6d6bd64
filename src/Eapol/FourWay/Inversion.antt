-- ===== src/Eapol/FourWay/Inversion.antt =====
-- What an accepted frame has passed on its way to its handler (crates/caw-eapol/src/lib.rs,
-- `on_frame`).
use caw.Prelude.{
  ℕ, Bool, true, false, not, List, [], ◌≡◌, refl, ◌⊎◌, inl, inr, some, Result, ok, err, >>=-eq-ok,
  >>-eq-ok, fail_if, fail_if-eq-ok, arith, ◌==◌,
}
use caw.Eap.Error.{Error, unsupported_descriptor, unexpected_message}
use caw.Eapol.Frame
use caw.Eapol.Frame.{Eapol, PacketType, key_packet}
use caw.Eapol.Key
use caw.Eapol.Key.{
  KeyFrame, has_bit, ack_bit, request_bit, pairwise_bit, mic_bit, descriptor_type_rsn,
}
use caw.Eapol.FourWay.{
  FourWay, Primitives, Action, Fault, failed_with, panicked, attempt, settle, is_after, dispatch,
  on_fresh_frame, on_key_frame, on_frame, unless_silent, is_silent, is_failed, by_packet_type,
}

pub attempt-eq-ok : {A : Type 0} (r : Result A Error) (a : A) → attempt r ≡ ok a → r ≡ ok a
unfolding attempt
attempt-eq-ok (ok b) a h = cc
attempt-eq-ok (err e) a h = cc

pub settle-eq-ok :
    (h h' : FourWay) (r : Result (FourWay × List Action) Fault) (actions : List Action)
    → settle h r ≡ some (h', ok actions)
    → r ≡ ok (h', actions)
unfolding settle
settle-eq-ok h h' (ok (h'', acts)) actions e = cc
settle-eq-ok h h' (err (failed_with f)) actions e = cc
settle-eq-ok h h' (err panicked) actions e = cc

-- `bytes` is an authenticator's key frame with a counter that has not been used.
pub record IsFresh (h : FourWay) (bytes : List ℕ) (eapol : Eapol) (frame : KeyFrame) : Type 0 where
  pub framed : Frame.parse bytes ≡ ok eapol
  pub parsed : Key.parse eapol.body ≡ ok frame
  pub is_key : eapol.packet_type ≡ key_packet
  pub is_rsn : (frame.descriptor_type == descriptor_type_rsn) ≡ true
  pub is_heard : is_silent frame ≡ false
  pub is_newer : is_after h.rx_counter frame.replay_counter ≡ true

pub not-not : {b : Bool} → not b ≡ false → b ≡ true
not-not h = ground arith

-- What a silently dropped frame leaves behind, or what its handler gave.
module _ (prim : Primitives) (h h' : FourWay) (actions : List Action) where
  abbrev pub Dispatched : Eapol → KeyFrame → Type 0
  Dispatched eapol frame =
      dispatch prim h eapol frame h.state (has_bit frame.key_info pairwise_bit)
        (has_bit frame.key_info mic_bit)
      ≡ ok (h', actions)

  abbrev pub IsDropped : Type 0
  IsDropped = (h' ≡ h) × (actions ≡ [])

  on_fresh_frame-eq-ok :
      (eapol : Eapol) (frame : KeyFrame)
      → on_fresh_frame prim h eapol frame ≡ ok (h', actions)
      → (is_after h.rx_counter frame.replay_counter ≡ true) × Dispatched eapol frame
  unfolding on_fresh_frame
  on_fresh_frame-eq-ok eapol frame e =
      let (u, passed, rest) = >>=-eq-ok _ _ e in
      (not-not (fail_if-eq-ok _ _ u (attempt-eq-ok _ u passed)), rest)

  unless_silent-eq-ok :
      (eapol : Eapol) (frame : KeyFrame) (silent : Bool)
      → unless_silent prim h eapol frame silent ≡ ok (h', actions)
      → IsDropped ⊎ ((silent ≡ false) × (on_fresh_frame prim h eapol frame ≡ ok (h', actions)))
  unfolding unless_silent
  unless_silent-eq-ok eapol frame true e = ground arith
  unless_silent-eq-ok eapol frame false e = inr (refl, e)

  on_key_frame-eq-ok :
      (bytes : List ℕ) (eapol : Eapol)
      → Frame.parse bytes ≡ ok eapol
      → eapol.packet_type ≡ key_packet
      → on_key_frame prim h eapol ≡ ok (h', actions)
      → IsDropped ⊎ ((frame : KeyFrame) × IsFresh h bytes eapol frame × Dispatched eapol frame)
  unfolding on_key_frame
  on_key_frame-eq-ok bytes eapol framed is_key e =
      let (frame, parsed, e1) = >>=-eq-ok (attempt (Key.parse eapol.body)) _ e in
      let known : Result (Unit {0}) Fault = attempt (
        fail_if (not (frame.descriptor_type == descriptor_type_rsn))
          (unsupported_descriptor frame.descriptor_type)) in
      let (knows, e2) = >>-eq-ok known _ e1 in
      elim (unless_silent-eq-ok eapol frame (is_silent frame) e2) [
        | inl gone ↦ inl gone
        | inr heard ↦
            let (newer, rest) = on_fresh_frame-eq-ok eapol frame heard.1 in
            inr (
              frame,
              record {
                framed = framed;
                parsed = attempt-eq-ok _ frame parsed;
                is_key = is_key;
                is_rsn = not-not (fail_if-eq-ok _ _ tt (attempt-eq-ok _ tt knows));
                is_heard = heard.0;
                is_newer = newer;
              },
              rest,
            )
      ]

  by_packet_type-eq-ok :
      (eapol : Eapol) (kind : PacketType)
      → by_packet_type prim h eapol kind ≡ ok (h', actions)
      → IsDropped ⊎ ((kind ≡ key_packet) × (on_key_frame prim h eapol ≡ ok (h', actions)))
  unfolding by_packet_type
  by_packet_type-eq-ok eapol kind e = ground arith

  pub on_frame-eq-ok :
      (bytes : List ℕ)
      → on_frame prim h bytes ≡ ok (h', actions)
      → IsDropped
        ⊎ ((eapol : Eapol) × (frame : KeyFrame) × IsFresh h bytes eapol frame
            × Dispatched eapol frame)
  unfolding on_frame
  on_frame-eq-ok bytes e =
      let alive : Result (Unit {0}) Fault =
        attempt (fail_if (is_failed h.state) unexpected_message) in
      let (_, e1) = >>-eq-ok alive _ e in
      let (eapol, framed, e2) = >>=-eq-ok (attempt (Frame.parse bytes)) _ e1 in
      elim (by_packet_type-eq-ok eapol eapol.packet_type e2) [
        | inl gone ↦ inl gone
        | inr heard ↦
            elim (on_key_frame-eq-ok bytes eapol (attempt-eq-ok _ eapol framed) heard.0 heard.1) [
              | inl gone ↦ inl gone
              | inr (frame, fresh, rest) ↦ inr (eapol, frame, fresh, rest)
            ]
      ]
