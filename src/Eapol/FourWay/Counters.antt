-- ===== src/Eapol/FourWay/Counters.antt =====
-- Replay counters (crates/caw-eapol/src/lib.rs, `rx_counter`).
use caw.Prelude.{
  ℕ, Bool, true, false, List, [], ◌∷◌, ◌≡◌, ◌≢◌, refl, ap, ◌⊎◌, inl, inr, Option, none, some,
  Result, ok, err, arith, Bool-cases, ◌==◌,
}
use caw.Eap.Error.{Error, unexpected_message, replayed_counter}
use caw.Eapol.Frame
use caw.Eapol.Frame.{Eapol, key_packet}
use caw.Eapol.Key
use caw.Eapol.Key.{KeyFrame, descriptor_type_rsn}
use caw.Eapol.FourWay.{
  FourWay, Primitives, Action, Fault, failed_with, panicked, State, settle, on_frame, on_timeout,
  failed, Input, frame_input, timeout_input, poll, after_msg1, after_msg3, is_after, on_msg3,
  is_silent, is_failed, by_packet_type, on_key_frame, unless_silent, on_fresh_frame, attempt,
}
use caw.Eapol.FourWay.Inversion.{settle-eq-ok, IsFresh, on_frame-eq-ok}
use caw.Eapol.FourWay.Handlers.{
  on_msg1-eq-ok, on_msg3-eq-ok, on_group_msg1-eq-ok, dispatch-IsAnswered, IsAnswered, by_msg1,
  by_msg3, by_msg3_again, by_group_msg1,
}

-- One input after another, whatever each gives. None where one panics.
unfoldable pub run : Primitives → FourWay → List Input → Option FourWay
run prim h [] = some h
run prim h (input ∷ inputs) = elim (poll prim h input) [
  | none ↦ none
  | some (h', r) ↦ run prim h' inputs
]

pub run-cons :
    (prim : Primitives) (h next : FourWay) (input : Input) (inputs : List Input)
    (answer : Result (List Action) Error) (last : Option FourWay)
    → poll prim h input ≡ some (next, answer)
    → run prim next inputs ≡ last
    → run prim h (input ∷ inputs) ≡ last
unfolding run
run-cons prim h next input inputs answer last first rest = rw (first, run) rest

module _ (prim : Primitives) (h h' : FourWay) (actions : List Action) (eapol : Eapol)
    (frame : KeyFrame) where
  on_msg3-counter :
      (install : Bool)
      → on_msg3 prim h eapol frame install ≡ ok (h', actions)
      → h'.rx_counter ≡ some frame.replay_counter
  unfolding after_msg3
  on_msg3-counter install e =
      let (_, _, _, answer) = on_msg3-eq-ok prim h h' actions eapol frame install e in
      ap (λ m. m.rx_counter) answer.gives

  answer-counter :
      (state : State)
      → IsAnswered prim h h' actions eapol frame state
      → h'.rx_counter ≡ some frame.replay_counter
  unfolding after_msg1
  answer-counter state (by_msg1 e) =
      let (_, _, _, answer) = on_msg1-eq-ok prim h h' actions eapol frame e in
      ap (λ m. m.rx_counter) answer.gives
  answer-counter state (by_group_msg1 _ e) =
      let (_, _, _, answer) = on_group_msg1-eq-ok prim h h' actions eapol frame e in
      ap (λ m. m.rx_counter) answer.gives
  answer-counter state (by_msg3 _ e) = on_msg3-counter true e
  answer-counter state (by_msg3_again _ e) = on_msg3-counter false e

module _ (prim : Primitives) (h h' : FourWay) (actions : List Action) where
  -- What a frame that was not refused has done.
  on_frame-counter :
      (bytes : List ℕ)
      → on_frame prim h bytes ≡ ok (h', actions)
      → ((h' ≡ h) × (actions ≡ []))
        ⊎ ((eapol : Eapol) × (frame : KeyFrame) × IsFresh h bytes eapol frame
            × (h'.rx_counter ≡ some frame.replay_counter))
  on_frame-counter bytes e = elim (on_frame-eq-ok prim h h' actions bytes e) [
    | inl gone ↦ inl gone
    | inr (eapol, frame, fresh, sent) ↦ inr (
      eapol,
      frame,
      fresh,
      answer-counter prim h h' actions eapol frame h.state
          (dispatch-IsAnswered prim h h' actions eapol frame h.state _ _ sent),
    )
  ]

  on_timeout-counter : on_timeout h ≡ ok (h', actions) → h'.rx_counter ≡ h.rx_counter
  unfolding on_timeout
  on_timeout-counter e = ground arith

-- A counter that has been passed stays passed.
still_passed :
    (o o' : Option ℕ) (c d : ℕ)
    → is_after o c ≡ false
    → is_after o d ≡ true
    → o' ≡ some d
    → is_after o' c ≡ false
unfolding is_after
still_passed o o' c d passed newer now = ground arith

module _ (prim : Primitives) (c : ℕ) where
  settle-passed :
      (h h' : FourWay) (r : Result (FourWay × List Action) Fault)
      (answer : Result (List Action) Error)
      → is_after h.rx_counter c ≡ false
      → ((next : FourWay) (actions : List Action)
          → r ≡ ok (next, actions)
          → is_after next.rx_counter c ≡ false)
      → settle h r ≡ some (h', answer)
      → is_after h'.rx_counter c ≡ false
  unfolding settle
  settle-passed h h' (ok (next, actions)) answer passed keeps e =
      let same : next ≡ h' = cc e in rw (← same) (keeps next actions refl)
  settle-passed h h' (err (failed_with f)) answer passed keeps e =
      let same : record h { state = failed } ≡ h' = cc e in rw (← same) passed
  settle-passed h h' (err panicked) answer passed keeps e = cc e

  on_frame-passed :
      (h next : FourWay) (actions : List Action) (bytes : List ℕ)
      → is_after h.rx_counter c ≡ false
      → on_frame prim h bytes ≡ ok (next, actions)
      → is_after next.rx_counter c ≡ false
  on_frame-passed h next actions bytes passed e =
      elim (on_frame-counter prim h next actions bytes e) [
        | inl gone ↦ rw (gone.0) passed
        | inr (eapol, frame, fresh, now) ↦
            still_passed h.rx_counter next.rx_counter c frame.replay_counter passed fresh.is_newer
              now
      ]

  poll-passed :
      (h h' : FourWay) (input : Input) (answer : Result (List Action) Error)
      → is_after h.rx_counter c ≡ false
      → poll prim h input ≡ some (h', answer)
      → is_after h'.rx_counter c ≡ false
  unfolding poll
  poll-passed h h' (frame_input bytes) answer passed e =
      settle-passed h h' (on_frame prim h bytes) answer passed
        (λ next actions now. on_frame-passed h next actions bytes passed now) e
  poll-passed h h' timeout_input answer passed e =
      settle-passed h h' (on_timeout h) answer passed
        (λ next actions now. rw (on_timeout-counter prim h next actions now) passed) e

  run-passed :
      (h h' : FourWay) (inputs : List Input)
      → is_after h.rx_counter c ≡ false
      → run prim h inputs ≡ some h'
      → is_after h'.rx_counter c ≡ false
  unfolding run
  run-passed h h' [] passed e = let same : h ≡ h' = cc e in rw (← same) passed
  run-passed h h' (input ∷ inputs) passed e =
      continued (λ next. run-passed next h' inputs) (poll prim h input) refl e
    where
      continued :
          ((next : FourWay)
            → is_after next.rx_counter c ≡ false
            → run prim next inputs ≡ some h'
            → is_after h'.rx_counter c ≡ false)
          → (first : Option (FourWay × Result (List Action) Error)) → poll prim h input ≡ first
          → elim first [ none ↦ none | some (next, answer) ↦ run prim next inputs ] ≡ some h'
          → is_after h'.rx_counter c ≡ false
      continued more none now e = cc e
      continued more (some (next, answer)) now e =
          more next (poll-passed h next input answer passed now) e

not_after_itself : (o : Option ℕ) (c : ℕ) → o ≡ some c → is_after o c ≡ false
unfolding is_after
not_after_itself o c e = ground arith

-- A frame whose counter has been passed is refused.
on_frame-passed_counter :
    (prim : Primitives) (h : FourWay) (bytes : List ℕ) (eapol : Eapol) (frame : KeyFrame)
    → Frame.parse bytes ≡ ok eapol
    → Key.parse eapol.body ≡ ok frame
    → eapol.packet_type ≡ key_packet
    → (frame.descriptor_type == descriptor_type_rsn) ≡ true
    → is_silent frame ≡ false
    → is_after h.rx_counter frame.replay_counter ≡ false
    → (failure : Error) × (on_frame prim h bytes ≡ err (failed_with failure))
unfolding on_frame by_packet_type on_key_frame unless_silent on_fresh_frame attempt
on_frame-passed_counter prim h bytes eapol frame framed parsed is_key is_rsn heard passed =
    elim (Bool-cases (is_failed h.state)) [
      | inl over ↦ (unexpected_message, rw over refl)
      | inr alive ↦
          (replayed_counter, rw (alive, framed, is_key, parsed, is_rsn, heard, passed) refl)
    ]

module _ (prim : Primitives) (h h1 h2 : FourWay) (bytes : List ℕ) (inputs : List Input)
    (actions : List Action) where
  -- A frame that was answered is refused, and fails the handshake, when it comes back, whatever
  -- inputs come in between.
  pub poll-replayed :
      poll prim h (frame_input bytes) ≡ some (h1, ok actions)
      → actions ≢ []
      → run prim h1 inputs ≡ some h2
      → (failure : Error) × (poll prim h2 (frame_input bytes)
          ≡ some (record h2 { state = failed }, err failure))
  unfolding poll settle
  poll-replayed first answered between =
      elim (on_frame-counter prim h h1 actions bytes
        (settle-eq-ok h h1 (on_frame prim h bytes) actions first)) [
          | inl gone ↦ absurd (answered gone.1)
          | inr (eapol, frame, fresh, now) ↦
              let passed : is_after h2.rx_counter frame.replay_counter ≡ false =
                run-passed prim frame.replay_counter h1 h2 inputs (not_after_itself _ _ now)
                  between in
              let (failure, e) =
                on_frame-passed_counter prim h2 bytes eapol frame fresh.framed fresh.parsed
                  fresh.is_key fresh.is_rsn fresh.is_heard passed in
              (failure, rw e refl)
        ]
