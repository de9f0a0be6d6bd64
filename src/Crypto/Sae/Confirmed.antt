-- ===== src/Crypto/Sae/Confirmed.antt =====
-- When the PMK is handed over (crates/caw-crypto/src/sae.rs, `on_frame`).
use caw.Prelude.{
  ℕ, true, List, [], ◌≡◌, refl, inl, inr, ◌==◌, Option, some, Result, ok, take, slice, Bool-cases,
  arith, ==_iff,
}
use caw.Prelude.Words.{bytes_eq, bytes_eq→eq}
use caw.Crypto.{CryptoError, Step, done_step}
use caw.Crypto.Sae.{
  SaeGroup, SaeProvider, State, Commit, Session, idle, committed, confirmed, accepted, failed,
  Outcome, returns, refuses, panics, ◌>>=◌,
}
use caw.Crypto.Sae.Frames.{
  AuthFrame, parse_auth, parse_commit, parse_token, seq_confirm, status_success,
}
use caw.Crypto.Sae.Exchange.{
  on_frame, on_parsed, on_auth, on_commit, on_confirm, on_token_request, send_commit, session_of,
  confirm_with, settle, check_confirm, confirm_hash, is_expected,
}

-- How a frame came to end an exchange with a key.
pub record IsProof (G : SaeGroup) (p p' : SaeProvider G) (frame pmk : List ℕ) : Type 0 where
  pub session : Session
  pub auth : AuthFrame
  pub was_waiting : p.state ≡ confirmed session
  pub is_read : parse_auth frame ≡ returns auth
  pub is_confirm : (auth.seq ≡ seq_confirm) × (auth.status ≡ status_success)
  pub verifies :
      confirm_hash G session.kck
        (take 2 auth.body)
        session.peer_scalar_bytes
        session.peer_element_bytes
        session.own_scalar_bytes
        session.own_element_bytes
      ≡ slice 2 34 auth.body
  pub has_pmk : pmk ≡ session.pmk
  pub is_done : p' ≡ record p { state = accepted; last_sent = [] }

module _ (G : SaeGroup) (p p' : SaeProvider G) (pmk : List ℕ) where
  send_commit-not_done :
      (q : SaeProvider G) (token : Option (List ℕ)) (c : Commit G)
      → send_commit G q token c ≡ some (p', ok (done_step pmk))
      → ⊥
  unfolding send_commit
  send_commit-not_done q token c e = ground arith

  settle-not_done :
      {A : Type 0} (outcome : Outcome A)
      (rest : A → Option (SaeProvider G × Result Step CryptoError))
      → ((a : A) → rest a ≡ some (p', ok (done_step pmk)) → ⊥)
      → settle G p outcome rest ≡ some (p', ok (done_step pmk))
      → ⊥
  unfolding settle
  settle-not_done (returns a) rest never e = never a e
  settle-not_done (refuses error) rest never e = cc e
  settle-not_done panics rest never e = cc e

  on_commit-not_done :
      (c : Commit G) (body : List ℕ) → on_commit G p c body ≡ some (p', ok (done_step pmk)) → ⊥
  unfolding on_commit confirm_with
  on_commit-not_done c body e =
      settle-not_done (parse_commit body >>= λ (scalar, element). session_of G c scalar element)
        (λ (session, pmkid). confirm_with G p session pmkid) (λ a h. cc h) e

  on_token_request-not_done :
      (c : Commit G) (body : List ℕ)
      → on_token_request G p c body ≡ some (p', ok (done_step pmk))
      → ⊥
  unfolding on_token_request
  on_token_request-not_done c body e =
      settle-not_done (parse_token body) (λ token. send_commit G p (some token) c)
        (λ token h. send_commit-not_done p (some token) c h) e

  verified :
      (session : Session) (body : List ℕ)
      → check_confirm G session body ≡ returns tt
      → bytes_eq
          (confirm_hash G session.kck
            (take 2 body)
            session.peer_scalar_bytes
            session.peer_element_bytes
            session.own_scalar_bytes
            session.own_element_bytes)
          (slice 2 34 body)
        ≡ true
  unfolding check_confirm
  verified session body e = ground arith

  check_confirm-eq-returns :
      (session : Session) (body : List ℕ)
      → check_confirm G session body ≡ returns tt
      → confirm_hash G session.kck
          (take 2 body)
          session.peer_scalar_bytes
          session.peer_element_bytes
          session.own_scalar_bytes
          session.own_element_bytes
        ≡ slice 2 34 body
  unfolding check_confirm
  check_confirm-eq-returns session body e =
      bytes_eq→eq _ (slice 2 34 body) (verified session body e)

  settled :
      (session : Session) (outcome : Outcome (Unit {0}))
      → settle G p outcome
          (λ _. some (record p { state = accepted; last_sent = [] }, ok (done_step session.pmk)))
        ≡ some (p', ok (done_step pmk))
      → (outcome ≡ returns tt)
        × (pmk ≡ session.pmk)
        × (p' ≡ record p { state = accepted; last_sent = [] })
  unfolding settle
  settled session (returns u) e = (refl, cc e, cc e)
  settled session (refuses error) e = cc e
  settled session panics e = cc e

  by_commit :
      (c : Commit G) (auth : AuthFrame)
      → on_auth G (committed c) p auth ≡ some (p', ok (done_step pmk))
      → ⊥
  unfolding on_auth
  by_commit c auth e =
      ground (arith, on_token_request-not_done c auth.body, on_commit-not_done c auth.body)

  -- What a confirm that ends the exchange has passed.
  on_confirm-done :
      (session : Session) (body : List ℕ)
      → on_confirm G p session body ≡ some (p', ok (done_step pmk))
      → (check_confirm G session body ≡ returns tt)
        × (pmk ≡ session.pmk)
        × (p' ≡ record p { state = accepted; last_sent = [] })
  unfolding on_confirm
  on_confirm-done session body e = settled session (check_confirm G session body) e

  on_auth-done :
      (state : State G) (auth : AuthFrame)
      → on_auth G state p auth ≡ some (p', ok (done_step pmk))
      → (session : Session) × (state ≡ confirmed session)
        × (auth.seq ≡ seq_confirm)
        × (on_confirm G p session auth.body ≡ some (p', ok (done_step pmk)))
  unfolding on_auth
  on_auth-done (committed c) auth e = absurd (by_commit c auth e)
  on_auth-done (confirmed session) auth e = elim (Bool-cases (auth.seq == seq_confirm)) [
    | inl is_confirm ↦ (session, refl, (==_iff auth.seq seq_confirm).0 is_confirm, ground arith)
    | inr other ↦ absurd (ground arith)
  ]
  on_auth-done accepted auth e = cc e
  on_auth-done idle auth e = cc e
  on_auth-done failed auth e = cc e

  on_parsed-done :
      (outcome : Outcome AuthFrame)
      → on_parsed G p outcome ≡ some (p', ok (done_step pmk))
      → (auth : AuthFrame) × (outcome ≡ returns auth)
        × (is_expected G auth.seq auth.status ≡ true)
        × (on_auth G p.state p auth ≡ some (p', ok (done_step pmk)))
  unfolding on_parsed
  on_parsed-done panics e = cc e
  on_parsed-done (refuses error) e = cc e
  on_parsed-done (returns auth) e = elim (Bool-cases (is_expected G auth.seq auth.status)) [
    | inl expected ↦ (auth, refl, expected, ground arith)
    | inr other ↦ absurd (ground arith)
  ]

  status_of_confirm :
      (auth : AuthFrame)
      → is_expected G auth.seq auth.status ≡ true
      → auth.seq ≡ seq_confirm
      → auth.status ≡ status_success
  unfolding is_expected
  status_of_confirm auth expected is_confirm = ground arith

-- A key is handed over only by a frame that reads as a confirm with the status of success, while a
-- confirm is awaited, and that carries the hash over both commits, the peer's in front, under the key
-- of this exchange. It is the key of that exchange, which is over.
pub on_frame-IsProof :
    (G : SaeGroup) (p p' : SaeProvider G) (frame pmk : List ℕ)
    → on_frame G p frame ≡ some (p', ok (done_step pmk))
    → IsProof G p p' frame pmk
unfolding on_frame
on_frame-IsProof G p p' frame pmk e =
    let (auth, is_read, expected, handled) = on_parsed-done G p p' pmk (parse_auth frame) e in
    let (session, was_waiting, is_confirm, confirms) =
      on_auth-done G p p' pmk p.state auth handled in
    let (checked, has_pmk, is_done) = on_confirm-done G p p' pmk session auth.body confirms in
    record {
      session = session;
      auth = auth;
      was_waiting = was_waiting;
      is_read = is_read;
      is_confirm = (is_confirm, status_of_confirm G p p' pmk auth expected is_confirm);
      verifies = check_confirm-eq-returns G p p' pmk session auth.body checked;
      has_pmk = has_pmk;
      is_done = is_done;
    }
