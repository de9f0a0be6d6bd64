-- ===== src/Crypto/Sae/Meeting.antt =====
-- Each end of one exchange, step by step (crates/caw-crypto/src/sae.rs).
use caw.Prelude.{
  ℕ, List, [], ◌++◌, ◌≡◌, refl, ap, ◌∙◌, arith, length, le→not_ltb, take_all, replicate,
  append_assoc, true, Option, none, some, Result, ok,
}
use caw.Prelude.Words.{bytes_eq_self}
use caw.Wifi.Suites.{sae}
use caw.Crypto.{CryptoError, AuthContext, Step, send_step, done_step}
use caw.Crypto.Kdf.{le16_bytes}
use caw.Crypto.Sae.{
  SaeGroup, SaeProvider, State, Commit, Session, returns, committed, confirmed, accepted,
}
use caw.Crypto.Sae.Inversion.{parse_auth-commit, parse_auth-confirm, parse_commit-fields}
use caw.Crypto.Sae.Frames.{
  auth_header, AuthFrame, parse_auth, seq_commit, seq_confirm, status_h2e, status_success,
  group_p256,
}
use caw.Crypto.Sae.Laws.{IsSaeGroup}
use caw.Crypto.Sae.Exchange.{
  start, start_commit, on_frame, new, session_of, commit_fields, settle, on_commit, on_confirm,
  check_confirm, confirm_frame, confirm_hash, confirm_with, send_commit, commit_frame,
  token_element, is_idle, on_parsed, on_auth, is_expected,
}

-- The ends have one network and each other's address.
pub record IsFacing (a b : AuthContext) : Type 0 where
  pub same_ssid : a.ssid ≡ b.ssid
  pub bssid_of_a : a.bssid ≡ b.own_mac
  pub bssid_of_b : b.bssid ≡ a.own_mac
  pub sae_of_a : a.akm ≡ sae
  pub sae_of_b : b.akm ≡ sae

module _ (G : SaeGroup) where
  -- The frame of a step that sends one, and the key of a step that ends.
  unfoldable pub sent :
      Option (SaeProvider G × Result Step CryptoError) → Option (SaeProvider G × List ℕ)
  sent (some (p, ok (send_step frame))) = some (p, frame)
  sent _ = none

  unfoldable pub finished :
      Option (SaeProvider G × Result Step CryptoError) → Option (SaeProvider G × List ℕ)
  finished (some (p, ok (done_step pmk))) = some (p, pmk)
  finished _ = none

  infixl 5 ◌>>=◌
  abbrev pub ◌>>=◌ : {A B : Type 0} → Option A → (A → Option B) → Option B
  none >>= f = none
  some a >>= f = f a

  -- The key and the PMKID of each end, when the ends are each given what the other sends.
  unfoldable pub meet :
      AuthContext
      → AuthContext
      → SaeProvider G
      → SaeProvider G
      → Option ((List ℕ × Option (List ℕ)) × (List ℕ × Option (List ℕ)))
  meet ctx_a ctx_b a b = do
    (a1, commit_a) ← sent (start G ctx_a a)
    (b1, commit_b) ← sent (start G ctx_b b)
    (a2, confirm_a) ← sent (on_frame G a1 commit_b)
    (b2, confirm_b) ← sent (on_frame G b1 commit_a)
    (a3, pmk_a) ← finished (on_frame G a2 confirm_b)
    (b3, pmk_b) ← finished (on_frame G b2 confirm_a)
    some ((pmk_a, a3.pmkid), (pmk_b, b3.pmkid))

  -- A new provider whose commit is out.
  abbrev pub waiting : List ℕ → Commit G → SaeProvider G
  waiting password c = record {
    password = password;
    seed = replicate 96 0;
    state = committed c;
    last_sent = commit_fields G c ++ [];
    sync = 0;
    send_confirm = 0;
    token = none;
    pmkid = none;
  }

  pub start-new :
      (ctx : AuthContext) (password seed : List ℕ) (c : Commit G)
      → ctx.akm ≡ sae
      → start_commit G ctx (new G password seed) ≡ some c
      → start G ctx (new G password seed)
        ≡ some (waiting password c, ok (send_step (commit_fields G c ++ [])))
  unfolding start new is_idle send_commit commit_frame token_element start_commit commit_fields
  start-new ctx password seed c is_sae e = rw (is_sae, e) refl

  pub parse_fields :
      (peer : Commit G) (rest : List ℕ)
      → parse_auth (commit_fields G peer ++ rest)
        ≡ returns (record {
          seq = seq_commit;
          status = status_h2e;
          body = le16_bytes group_p256 ++ (peer.scalar_bytes ++ (peer.element_bytes ++ rest));
        })
  unfolding commit_fields
  parse_fields peer rest =
      rw
        (
          append_assoc (auth_header seq_commit status_h2e)
              (le16_bytes group_p256 ++ (peer.scalar_bytes ++ peer.element_bytes)) rest,
          append_assoc peer.scalar_bytes peer.element_bytes rest,
        )
        (parse_auth-commit
          (le16_bytes group_p256 ++ (peer.scalar_bytes ++ (peer.element_bytes ++ rest))))

  length-confirm_hash :
      IsSaeGroup G
      → (peer : Session) (n : ℕ)
      → length (
          confirm_hash G peer.kck
            (le16_bytes n)
            peer.own_scalar_bytes
            peer.own_element_bytes
            peer.peer_scalar_bytes
            peer.peer_element_bytes)
        ≡ 32
  unfolding confirm_hash
  length-confirm_hash laws peer n = laws.length-hmac peer.kck _

  check_confirm-hash :
      (session : Session) (n : ℕ) (hash : List ℕ)
      → length hash ≡ 32
      → confirm_hash G session.kck
          (le16_bytes n)
          session.peer_scalar_bytes
          session.peer_element_bytes
          session.own_scalar_bytes
          session.own_element_bytes
        ≡ hash
      → check_confirm G session (le16_bytes n ++ hash) ≡ returns tt
  unfolding check_confirm
  check_confirm-hash session n hash size same =
      rw
        (
          le→not_ltb (length (le16_bytes n ++ hash)) 34 (omega arith),
          take_all 32 hash (omega arith),
          same,
          bytes_eq_self hash,
        )
        refl

  pub on_frame-expected :
      (p : SaeProvider G) (state : State G) (frame : List ℕ) (auth : AuthFrame)
      → parse_auth frame ≡ returns auth
      → is_expected G auth.seq auth.status ≡ true
      → p.state ≡ state
      → on_frame G p frame ≡ on_auth G state p auth
  unfolding on_frame on_parsed
  on_frame-expected p state frame auth parsed expected is_state =
      rw (parsed, expected) (ap (λ st. on_auth G st p auth) is_state)

  pub on_frame-commit :
      (p : SaeProvider G) (c peer : Commit G) (session : Session) (pmkid rest : List ℕ)
      → p.state ≡ committed c
      → length peer.scalar_bytes ≡ 32
      → length peer.element_bytes ≡ 64
      → session_of G c peer.scalar_bytes peer.element_bytes ≡ returns (session, pmkid)
      → on_frame G p (commit_fields G peer ++ rest) ≡ confirm_with G p session pmkid
  unfolding on_auth is_expected on_commit settle
  on_frame-commit p c peer session pmkid rest waits h k derived =
      let body : List ℕ =
        le16_bytes group_p256 ++ (peer.scalar_bytes ++ (peer.element_bytes ++ rest)) in
      on_frame-expected p (committed c) (commit_fields G peer ++ rest)
        (record { seq = seq_commit; status = status_h2e; body = body }) (parse_fields peer rest)
        refl waits
      ∙ rw (parse_commit-fields peer.scalar_bytes peer.element_bytes rest h k, derived) refl

  pub on_frame-confirm :
      (laws : IsSaeGroup G) (p : SaeProvider G) (session peer : Session) (n : ℕ)
      → p.state ≡ confirmed session
      → confirm_hash G session.kck
          (le16_bytes n)
          session.peer_scalar_bytes
          session.peer_element_bytes
          session.own_scalar_bytes
          session.own_element_bytes
        ≡ confirm_hash G peer.kck
            (le16_bytes n)
            peer.own_scalar_bytes
            peer.own_element_bytes
            peer.peer_scalar_bytes
            peer.peer_element_bytes
      → on_frame G p (confirm_frame G n peer)
        ≡ some (record p { state = accepted; last_sent = [] }, ok (done_step session.pmk))
  unfolding on_auth is_expected on_confirm settle confirm_frame
  on_frame-confirm laws p session peer n waits same =
      let hash : List ℕ =
        confirm_hash G peer.kck (le16_bytes n) peer.own_scalar_bytes peer.own_element_bytes
          peer.peer_scalar_bytes peer.peer_element_bytes in
      on_frame-expected p (confirmed session) (confirm_frame G n peer)
        (record { seq = seq_confirm; status = status_success; body = le16_bytes n ++ hash })
        (parse_auth-confirm (le16_bytes n ++ hash)) refl waits
      ∙ rw (check_confirm-hash session n hash (length-confirm_hash laws peer n) same) refl
