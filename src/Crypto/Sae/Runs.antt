-- ===== src/Crypto/Sae/Runs.antt =====
-- One exchange under any inputs (crates/caw-crypto/src/sae.rs, `SaeProvider`).
use mathlib.Core.Path.{subst}
use caw.Prelude.{
  ℕ, ◌+◌, ◌≤◌, Bool, true, false, not, List, [], ◌∷◌, ◌++◌, ◌≡◌, refl, sym, inl, inr, ◌==◌, ◌%◌,
  ltb, if◌then◌else◌, Option, none, some, Result, ok, err, drop, length, Bool-cases, arith, All,
  All-append, le→not_ltb,
}
use caw.Prelude.Words.{IsByte}
use caw.Crypto.{CryptoError, AuthContext, auth_failed, Step, send_step, wait_step, done_step}
use caw.Crypto.Sae.{
  SaeGroup, SaeProvider, State, Commit, Session, idle, committed, confirmed, accepted, failed,
  Outcome, returns, refuses, panics, ◌>>=◌, sync_max,
}
use caw.Crypto.Sae.Laws.{IsSaeGroup}
use caw.Crypto.Sae.Frames.{
  AuthFrame, seq_commit, status_anti_clogging, parse_auth, parse_commit, parse_token, seq_confirm,
}
use caw.Crypto.Sae.Exchange.{
  start, start_commit, new, is_idle, on_frame, on_parsed, on_auth, on_commit, on_confirm,
  on_token_request, on_timeout, on_timeout_in, resend, send_commit, commit_frame, token_element,
  session_of, confirm_with, confirm_frame, check_confirm, is_expected,
}
use caw.Wifi.Suites.{sae}
use caw.Crypto.Sae.Meeting.{start-new}
use caw.Crypto.Sae.Invariant.{
  drop-IsByte, IsOwn, Holds, HoldsIn, SendsOwn, IsGood, is_panic, bind-is_panic, settle-IsGood,
  session_of-is_panic, parse_commit-is_panic, parse_token-is_panic, check_confirm-is_panic,
  parse_auth-is_panic, parse_token_size,
}

pub data Event : Type 0 where
  start_event : AuthContext → Event
  frame_event : List ℕ → Event
  timeout_event : Event

-- What arrives is octets.
abbrev pub IsOctets : Event → Type 0
IsOctets (frame_event frame) = All IsByte frame
IsOctets timeout_event = Unit {0}
IsOctets (start_event ctx) = Unit {0}

abbrev pub sends : Result Step CryptoError → List (List ℕ)
sends (ok (send_step frame)) = frame ∷ []
sends (ok wait_step) = []
sends (ok (done_step pmk)) = []
sends (err e) = []

module _ (G : SaeGroup) where
  abbrev prepend :
      List (List ℕ)
      → Option (SaeProvider G × List (List ℕ))
      → Option (SaeProvider G × List (List ℕ))
  prepend frames none = none
  prepend frames (some (p, more)) = some (p, frames ++ more)

  unfoldable pub handle : SaeProvider G → Event → Option (SaeProvider G × Result Step CryptoError)
  handle p (frame_event frame) = on_frame G p frame
  handle p timeout_event = some (on_timeout G p)
  handle p (start_event ctx) = start G ctx p

  abbrev after :
      Option (SaeProvider G × Result Step CryptoError)
      → (SaeProvider G → Option (SaeProvider G × List (List ℕ)))
      → Option (SaeProvider G × List (List ℕ))
  after none rest = none
  after (some (p, result)) rest = prepend (sends result) (rest p)

  -- The provider after the inputs, and every frame that it sent.
  unfoldable pub run : SaeProvider G → List Event → Option (SaeProvider G × List (List ℕ))
  run p [] = some (p, [])
  run p (event ∷ events) = after (handle p event) (λ q. run q events)

module _ (G : SaeGroup) (laws : IsSaeGroup G) (c : Commit G) where
  send_commit-IsGood :
      (p : SaeProvider G) (token : List ℕ)
      → length token ≤ 254
      → IsGood G c (send_commit G p (some token) c)
  unfolding send_commit commit_frame token_element
  send_commit-IsGood p token short =
      rw (le→not_ltb 255 (length token + 1) (omega arith), IsGood)
        ((refl, inl (_, refl)), inl (_, refl))

  resend-IsGood :
      (p : SaeProvider G) → Holds G c p → IsOwn G c p.last_sent → IsGood G c (some (resend G p))
  unfolding resend
  resend-IsGood p holds own = elim (Bool-cases (ltb sync_max ((p.sync + 1) % 256))) [
    | inl spent ↦ rw spent (holds, tt)
    | inr left ↦ rw left (holds, own)
  ]

  on_commit-IsGood : (p : SaeProvider G) (body : List ℕ) → IsGood G c (on_commit G p c body)
  unfolding on_commit confirm_with confirm_frame
  on_commit-IsGood p body =
      settle-IsGood G c p (parse_commit body >>= λ (scalar, element). session_of G c scalar element)
        (λ (session, pmkid). confirm_with G p session pmkid)
        (bind-is_panic (parse_commit body) (λ (scalar, element). session_of G c scalar element)
          (parse_commit-is_panic G c body)
          (λ (scalar, element). session_of-is_panic G c laws c scalar element))
        (λ a _. (inr (_, refl), inr (_, refl)))

  on_confirm-IsGood :
      (p : SaeProvider G) (session : Session) (body : List ℕ)
      → IsGood G c (on_confirm G p session body)
  unfolding on_confirm
  on_confirm-IsGood p session body =
      settle-IsGood G c p (check_confirm G session body)
        (λ _. some (record p { state = accepted; last_sent = [] }, ok (done_step session.pmk)))
        (check_confirm-is_panic G c session body) (λ _ _. (tt, tt))

  on_token_request-IsGood :
      (p : SaeProvider G) (body : List ℕ)
      → All IsByte body
      → IsGood G c (on_token_request G p c body)
  unfolding on_token_request
  on_token_request-IsGood p body bytes =
      settle-IsGood G c p (parse_token body) (λ token. send_commit G p (some token) c)
        (parse_token-is_panic G c body)
        (λ token e. send_commit-IsGood p token (parse_token_size G c body token bytes e))

  IsGood-if :
      (b : Bool) (x y : Option (SaeProvider G × Result Step CryptoError))
      → IsGood G c x
      → IsGood G c y
      → IsGood G c (if b then x else y)
  IsGood-if true x y h k = h
  IsGood-if false x y h k = k

  on_auth-IsGood :
      (state : State G) (p : SaeProvider G) (auth : AuthFrame)
      → HoldsIn G c state p.last_sent
      → Holds G c p
      → All IsByte auth.body
      → IsGood G c (on_auth G state p auth)
  unfolding on_auth
  on_auth-IsGood (committed d) p auth (is_c, own) holds bytes =
      IsGood-if (not (auth.seq == seq_commit)) (some (p, ok wait_step)) _ (holds, tt)
        (subst
          (λ e. IsGood G c (
            if auth.status == status_anti_clogging
            then on_token_request G p e auth.body
            else on_commit G p e auth.body))
          (sym is_c)
          (IsGood-if (auth.status == status_anti_clogging) _ _
            (on_token_request-IsGood p auth.body bytes) (on_commit-IsGood p auth.body)))
  on_auth-IsGood (confirmed session) p auth own holds bytes =
      IsGood-if (auth.seq == seq_confirm) (on_confirm G p session auth.body)
        (some (p, ok wait_step)) (on_confirm-IsGood p session auth.body) (holds, tt)
  on_auth-IsGood accepted p auth h holds bytes = (holds, tt)
  on_auth-IsGood failed p auth h holds bytes = (holds, tt)
  on_auth-IsGood idle p auth h holds bytes = absurd h

  body_of :
      (frame : List ℕ) (auth : AuthFrame)
      → parse_auth frame ≡ returns auth
      → drop 6 frame ≡ auth.body
  unfolding parse_auth
  body_of frame auth e = ground arith

  on_parsed-IsGood :
      (p : SaeProvider G) (outcome : Outcome AuthFrame)
      → Holds G c p
      → is_panic outcome ≡ false
      → ((auth : AuthFrame) → outcome ≡ returns auth → All IsByte auth.body)
      → IsGood G c (on_parsed G p outcome)
  unfolding on_parsed
  on_parsed-IsGood p panics holds h bytes = cc h
  on_parsed-IsGood p (refuses e) holds h bytes = (holds, tt)
  on_parsed-IsGood p (returns auth) holds h bytes =
      IsGood-if (is_expected G auth.seq auth.status) (on_auth G p.state p auth)
        (some (p, err auth_failed)) (on_auth-IsGood p.state p auth holds holds (bytes auth refl))
        (holds, tt)

  on_timeout_in-IsGood :
      (state : State G) (p : SaeProvider G)
      → HoldsIn G c state p.last_sent
      → Holds G c p
      → IsGood G c (some (on_timeout_in G state p))
  unfolding on_timeout_in
  on_timeout_in-IsGood (committed d) p (is_c, own) holds = resend-IsGood p holds own
  on_timeout_in-IsGood (confirmed session) p own holds = resend-IsGood p holds own
  on_timeout_in-IsGood accepted p h holds = (holds, tt)
  on_timeout_in-IsGood failed p h holds = (holds, tt)
  on_timeout_in-IsGood idle p h holds = absurd h

  not_idle : (state : State G) (last : List ℕ) → HoldsIn G c state last → is_idle G state ≡ false
  unfolding is_idle
  not_idle (committed d) last h = refl
  not_idle (confirmed session) last h = refl
  not_idle accepted last h = refl
  not_idle failed last h = refl
  not_idle idle last h = absurd h

  start-IsGood : (p : SaeProvider G) (ctx : AuthContext) → Holds G c p → IsGood G c (start G ctx p)
  unfolding start
  start-IsGood p ctx holds = rw (not_idle p.state p.last_sent holds) (holds, tt)

  handle-IsGood :
      (p : SaeProvider G) (event : Event)
      → Holds G c p
      → IsOctets event
      → IsGood G c (handle G p event)
  unfolding handle on_frame on_timeout
  handle-IsGood p (frame_event frame) holds bytes =
      on_parsed-IsGood p (parse_auth frame) holds (parse_auth-is_panic G c frame) (λ auth e.
        subst (λ body. All IsByte body) (body_of frame auth e) (drop-IsByte 6 frame bytes))
  handle-IsGood p (start_event ctx) holds bytes = start-IsGood p ctx holds
  handle-IsGood p timeout_event holds bytes = on_timeout_in-IsGood p.state p holds holds

  -- A run ends, holding to its commit, and its frames are its own.
  abbrev IsOwnRun : Option (SaeProvider G × List (List ℕ)) → Type 0
  IsOwnRun none = ⊥
  IsOwnRun (some (p, frames)) = Holds G c p × All (IsOwn G c) frames

  sends-IsOwn :
      (result : Result Step CryptoError) → SendsOwn G c result → All (IsOwn G c) (sends result)
  sends-IsOwn (ok (send_step frame)) own = (own, tt)
  sends-IsOwn (ok wait_step) own = tt
  sends-IsOwn (ok (done_step pmk)) own = tt
  sends-IsOwn (err e) own = tt

  prepend-IsOwnRun :
      (frames : List (List ℕ)) (rest : Option (SaeProvider G × List (List ℕ)))
      → All (IsOwn G c) frames
      → IsOwnRun rest
      → IsOwnRun (prepend G frames rest)
  prepend-IsOwnRun frames none own h = absurd h
  prepend-IsOwnRun frames (some (p, more)) own (holds, all_own) =
      (holds, All-append (IsOwn G c) frames more own all_own)

  after-IsOwnRun :
      (outcome : Option (SaeProvider G × Result Step CryptoError))
      (rest : SaeProvider G → Option (SaeProvider G × List (List ℕ)))
      → IsGood G c outcome
      → ((p : SaeProvider G) → Holds G c p → IsOwnRun (rest p))
      → IsOwnRun (after G outcome rest)
  after-IsOwnRun none rest h k = absurd h
  after-IsOwnRun (some (p, result)) rest (holds, own) k =
      prepend-IsOwnRun (sends result) (rest p) (sends-IsOwn result own) (k p holds)

  run-IsOwnRun :
      (events : List Event) (p : SaeProvider G)
      → Holds G c p
      → All IsOctets events
      → IsOwnRun (run G p events)
  unfolding run
  run-IsOwnRun [] p holds octets = (holds, tt)
  run-IsOwnRun (event ∷ events) p holds octets =
      after-IsOwnRun (handle G p event) (λ q. run G q events)
        (handle-IsGood p event holds (octets.0)) (λ q held. run-IsOwnRun events q held (octets.1))

  start_event-IsGood :
      (ctx : AuthContext) (password seed : List ℕ)
      → ctx.akm ≡ sae
      → start_commit G ctx (new G password seed) ≡ some c
      → IsGood G c (handle G (new G password seed) (start_event ctx))
  unfolding handle
  start_event-IsGood ctx password seed is_sae made =
      rw (start-new G ctx password seed c is_sae made) ((refl, inl (_, refl)), inl (_, refl))

  ended :
      (outcome : Option (SaeProvider G × List (List ℕ)))
      → IsOwnRun outcome
      → (last : SaeProvider G) × (frames : List (List ℕ)) × (outcome ≡ some (last, frames))
        × All (IsOwn G c) frames
  ended none h = absurd h
  ended (some (last, frames)) (holds, own) = (last, frames, refl, own)

  -- However a new provider is driven once it has started, by any frames of octets, timeouts and further
  -- starts, nothing panics, and every frame that it sends is a confirm or carries the one scalar and
  -- element of its first commit.
  pub run-IsOwn :
      (ctx : AuthContext) (password seed : List ℕ) (events : List Event)
      → ctx.akm ≡ sae
      → start_commit G ctx (new G password seed) ≡ some c
      → All IsOctets events
      → (last : SaeProvider G) × (frames : List (List ℕ)) × (run G
            (new G password seed)
            (start_event ctx ∷ events)
          ≡ some (last, frames))
        × All (IsOwn G c) frames
  unfolding run
  run-IsOwn ctx password seed events is_sae made octets =
      ended (after G (handle G (new G password seed) (start_event ctx)) (λ q. run G q events)) (
        after-IsOwnRun (handle G (new G password seed) (start_event ctx)) (λ q. run G q events)
          (start_event-IsGood ctx password seed is_sae made)
          (λ q held. run-IsOwnRun events q held octets))
