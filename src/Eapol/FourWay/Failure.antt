-- ===== src/Eapol/FourWay/Failure.antt =====
-- How a handshake ends (crates/caw-eapol/src/lib.rs, `poll` and `on_timeout`).
use caw.Prelude.{
  ℕ, zero, suc, ◌+◌, List, [], ◌∷◌, ◌≡◌, refl, ap, some, Result, ok, err, arith, replicate, leb,
  ◌++◌, Option, none, lt→not_leb, Option-cases, Bool-cases, inl, inr, sym, ◌<◌, ◌∙◌,
}
use caw.Eap.Error.{Error, unexpected_message, handshake_timeout}
use caw.Eapol.FourWay.{
  FourWay, Primitives, Action, Fault, failed_with, panicked, settle, on_frame, on_timeout, failed,
  attempt, is_failed, Input, frame_input, timeout_input, poll, retry_limit, retry_interval_ms, send,
  arm_timer,
}
use caw.Eapol.FourWay.Counters.{run, run-cons}

-- The machine that is reached, and what each input was answered with.
abbrev pub Answered : Type 0
Answered = FourWay × List (Result (List Action) Error)

abbrev behind : Result (List Action) Error → Option Answered → Option Answered
behind answer none = none
behind answer (some (last, later)) = some (last, answer ∷ later)

abbrev answer_then :
    Option (FourWay × Result (List Action) Error) → (FourWay → Option Answered) → Option Answered
answer_then none rest = none
answer_then (some (next, answer)) rest = behind answer (rest next)

module _ (prim : Primitives) where
  poll-failed_frame :
      (h : FourWay) (bytes : List ℕ)
      → h.state ≡ failed
      → poll prim h (frame_input bytes) ≡ some (record h { state = failed }, err unexpected_message)
  unfolding poll settle on_frame attempt is_failed
  poll-failed_frame h bytes e = rw e

  -- A timeout leaves a failed machine failed.
  poll-failed_timeout :
      (h : FourWay)
      → h.state ≡ failed
      → (h' : FourWay) × (r : Result (List Action) Error) × (poll prim h timeout_input
          ≡ some (h', r))
        × (h'.state ≡ failed)
  unfolding poll settle on_timeout
  poll-failed_timeout h e = elim (Option-cases h.last_sent) [
    | inl gone ↦ (h, ok [], rw gone, e)
    | inr (frame, now) ↦ elim (Bool-cases (leb retry_limit h.retries)) [
      | inl spent ↦
          (record h { state = failed }, err handshake_timeout, (rw now rw spent refl), refl)
      | inr left ↦ (
        record h { retries = h.retries + 1 },
        ok (send frame ∷ arm_timer retry_interval_ms ∷ []),
        (rw now rw left refl),
        e,
      )
    ]
  ]

  run-failed :
      (h : FourWay) (inputs : List Input)
      → h.state ≡ failed
      → (h' : FourWay) × (run prim h inputs ≡ some h') × (h'.state ≡ failed)
  unfolding run
  run-failed h [] e = (h, refl, e)
  run-failed h (frame_input bytes ∷ inputs) e =
      let (h', now, e') = run-failed (record h { state = failed }) inputs refl in
      (h', run-cons prim _ _ _ inputs _ _ (poll-failed_frame h bytes e) now, e')
  run-failed h (timeout_input ∷ inputs) e =
      let (next, r, first, still) = poll-failed_timeout h e in
      let (h', now, e') = run-failed next inputs still in
      (h', run-cons prim _ _ _ inputs _ _ first now, e')

  settle-eq-err :
      (h h' : FourWay) (r : Result (FourWay × List Action) Fault) (failure : Error)
      → settle h r ≡ some (h', err failure)
      → h'.state ≡ failed
  unfolding settle
  settle-eq-err h h' (ok (next, actions)) failure e = cc e
  settle-eq-err h h' (err (failed_with f)) failure e =
      let same : record h { state = failed } ≡ h' = cc e in ap (λ m. m.state) (sym same)
  settle-eq-err h h' (err panicked) failure e = cc e

  poll-eq-err :
      (h h' : FourWay) (input : Input) (failure : Error)
      → poll prim h input ≡ some (h', err failure)
      → h'.state ≡ failed
  unfolding poll
  poll-eq-err h h' (frame_input bytes) failure e =
      settle-eq-err h h' (on_frame prim h bytes) failure e
  poll-eq-err h h' timeout_input failure e = settle-eq-err h h' (on_timeout h) failure e

  -- Once an input has given an error, whatever inputs follow, none panics and every frame after
  -- them is refused as unexpected.
  pub poll-refused :
      (h h1 : FourWay) (input : Input) (failure : Error) (inputs : List Input) (bytes : List ℕ)
      → poll prim h input ≡ some (h1, err failure)
      → (h2 : FourWay) × (run prim h1 inputs ≡ some h2)
        × (poll prim h2 (frame_input bytes) ≡ some (h2, err unexpected_message))
  poll-refused h h1 input failure inputs bytes e =
      let (h2, now, is_failed_still) = run-failed h1 inputs (poll-eq-err h h1 input failure e) in
      (
        h2,
        now,
        poll-failed_frame h2 bytes is_failed_still
            ∙ ap (λ s. some (record h2 { state = s }, err unexpected_message))
                (sym is_failed_still),
      )

  resend :
      (h : FourWay) (frame : List ℕ)
      → h.last_sent ≡ some frame
      → h.retries < retry_limit
      → poll prim h timeout_input
        ≡ some (
          record h { retries = h.retries + 1 },
          ok (send frame ∷ arm_timer retry_interval_ms ∷ []),
        )
  unfolding poll settle on_timeout
  resend h frame e below = rw e rw (lt→not_leb retry_limit h.retries below) refl

  -- The answers to one input after another. None where one panics.
  unfoldable pub answers : FourWay → List Input → Option Answered
  answers h [] = some (h, [])
  answers h (input ∷ inputs) = answer_then (poll prim h input) (λ next. answers next inputs)

  give_up :
      (h : FourWay) (frame : List ℕ)
      → h.last_sent ≡ some frame
      → h.retries ≡ retry_limit
      → poll prim h timeout_input ≡ some (record h { state = failed }, err handshake_timeout)
  unfolding poll settle on_timeout
  give_up h frame e spent = rw e rw spent refl

  -- Where a message is outstanding and `n` of the retries are left, each of `n` timeouts is
  -- answered by that message and a new timer, and the timeout after them by the error that the
  -- handshake timed out, which leaves the machine failed.
  pub answers-timeouts :
      (n : ℕ) (h : FourWay) (frame : List ℕ)
      → h.last_sent ≡ some frame
      → h.retries + n ≡ retry_limit
      → answers h (replicate (suc n) timeout_input)
        ≡ some (
          record h { retries = retry_limit; state = failed },
          replicate n (ok (send frame ∷ arm_timer retry_interval_ms ∷ []))
              ++ (err handshake_timeout ∷ []),
        )
  unfolding answers
  answers-timeouts zero h frame e left =
      let spent : h.retries ≡ retry_limit = omega arith in
      rw (give_up h frame e spent) (
        ap (λ n. some (record h { retries = n; state = failed }, err handshake_timeout ∷ [])) spent)
  answers-timeouts (suc n) h frame e left =
      rw (resend h frame e (omega arith))
        (rw (answers-timeouts n (record h { retries = h.retries + 1 }) frame e (omega arith)) refl)
