-- ===== src/Crypto/Sae/Exchange.antt =====
-- The exchange (crates/caw-crypto/src/sae.rs, `SaeProvider`). A handler returns the provider that it
-- leaves and its result; `none` is a panic.
use caw.Prelude.{
  ℕ, true, false, ◌+◌, ◌%◌, Bool, not, ◌&&◌, ◌||◌, List, [], ◌∷◌, ◌++◌, ltb, ◌==◌, if◌then◌else◌,
  length, take, slice, min, Option, none, some, Result, ok, err, replicate,
}
use caw.Prelude.Words.{bytes_eq}
use caw.Wifi.Suites.{sae, akm_eq}
use caw.Crypto.{
  CryptoError, bad_input, auth_failed, unsupported_akm, protocol, AuthContext, Step, send_step,
  wait_step, done_step,
}
use caw.Crypto.Kdf.{le16_bytes, kdf_sha256}
use caw.Crypto.Sae.{
  SaeGroup, Commit, Session, State, idle, committed, confirmed, accepted, failed, SaeProvider,
  Outcome, returns, refuses, panics, ◌>>=◌, ◌>>◌, refuse_if, or_panic, hash_len, pwd_value_len,
  seed_len, sync_max,
}
use caw.Crypto.Sae.Element.{
  encode_element, x_coordinate, decode_element, decode_scalar, password_token, password_element,
  scalar_from,
}
use caw.Crypto.Sae.Frames.{
  auth_header, seq_commit, seq_confirm, status_success, status_anti_clogging, status_h2e,
  group_p256, eid_extension, eid_ext_anti_clogging, AuthFrame, parse_auth, parse_commit,
  parse_token,
}

-- "SAE KCK and PMK"
abbrev pub kck_and_pmk_label : List ℕ
kck_and_pmk_label = 83 ∷ 65 ∷ 69 ∷ 32 ∷ 75 ∷ 67 ∷ 75 ∷ 32 ∷ 97 ∷ 110 ∷ 100 ∷ 32 ∷ 80 ∷ 77 ∷ 75 ∷ []

module _ (G : SaeGroup) where
  unfoldable pub new : List ℕ → List ℕ → SaeProvider G
  new password seed = record {
    password = password;
    seed = seed;
    state = idle;
    last_sent = [];
    sync = 0;
    send_confirm = 0;
    token = none;
    pmkid = none;
  }

  unfoldable pub confirm_hash : List ℕ → List ℕ → List ℕ → List ℕ → List ℕ → List ℕ → List ℕ
  confirm_hash kck send_confirm scalar1 element1 scalar2 element2 =
      G.hmac_sha256 kck (send_confirm ++ (scalar1 ++ (element1 ++ (scalar2 ++ element2))))

  -- The element that carries a token back; its length has to fit in a byte.
  unfoldable pub token_element : Option (List ℕ) → Option (List ℕ)
  token_element none = some []
  token_element (some token) =
      if ltb 255 (length token + 1)
      then none
      else some (eid_extension ∷ (length token + 1) ∷ eid_ext_anti_clogging ∷ token)

  unfoldable pub commit_fields : Commit G → List ℕ
  commit_fields commit =
      auth_header seq_commit status_h2e
      ++ (le16_bytes group_p256 ++ (commit.scalar_bytes ++ commit.element_bytes))

  unfoldable pub commit_frame : Option (List ℕ) → Commit G → Option (List ℕ)
  commit_frame token commit = elim (token_element token) [
    | none ↦ none
    | some element ↦ some (commit_fields commit ++ element)
  ]

  -- A commit goes out, the first or again with a token.
  unfoldable pub send_commit :
      SaeProvider G → Option (List ℕ) → Commit G → Option (SaeProvider G × Result Step CryptoError)
  send_commit p token commit = elim (commit_frame token commit) [
    | none ↦ none
    | some frame ↦ some (
      record p { state = committed commit; token = token; last_sent = frame; sync = 0 },
      ok (send_step frame),
    )
  ]

  -- What an error, or a panic, makes of the provider whose state was taken out.
  unfoldable pub settle :
      {A : Type 0}
      → SaeProvider G
      → Outcome A
      → (A → Option (SaeProvider G × Result Step CryptoError))
      → Option (SaeProvider G × Result Step CryptoError)
  settle p (returns a) rest = rest a
  settle p (refuses e) rest = some (record p { state = failed }, err e)
  settle p panics rest = none

  -- What is derived of both commits: the session, and its PMKID.
  unfoldable pub derive :
      Commit G → List ℕ → List ℕ → G.Scalar → G.Point → Outcome (Session × List ℕ)
  derive commit peer_scalar_bytes peer_element_bytes peer_scalar peer_element = do
    let k_point = G.mul (G.add (G.mul commit.pwe peer_scalar) peer_element) commit.rand
    refuse_if (G.is_identity k_point) auth_failed
    k ← or_panic (x_coordinate G k_point)
    let keyseed = G.hmac_sha256 (replicate hash_len 0) k
    let context = G.to_bytes (G.scalar_add commit.scalar peer_scalar)
    keys ← or_panic (kdf_sha256 G.hmac_sha256 keyseed kck_and_pmk_label context 64)
    returns (
      record {
        peer_scalar_bytes = peer_scalar_bytes;
        peer_element_bytes = peer_element_bytes;
        own_scalar_bytes = commit.scalar_bytes;
        own_element_bytes = commit.element_bytes;
        kck = slice 0 32 keys;
        pmk = slice 32 64 keys;
      },
      take 16 context,
    )

  unfoldable pub session_of : Commit G → List ℕ → List ℕ → Outcome (Session × List ℕ)
  session_of commit peer_scalar_bytes peer_element_bytes = do
    refuse_if
        (bytes_eq peer_scalar_bytes commit.scalar_bytes
          && bytes_eq peer_element_bytes commit.element_bytes)
        auth_failed
    peer_scalar ← decode_scalar G peer_scalar_bytes
    peer_element ← decode_element G peer_element_bytes
    derive commit peer_scalar_bytes peer_element_bytes peer_scalar peer_element

  -- The counter of our confirms.
  unfoldable pub next_confirm : SaeProvider G → ℕ
  next_confirm p = min (p.send_confirm + 1) 65_535

  unfoldable pub confirm_frame : ℕ → Session → List ℕ
  confirm_frame send_confirm session =
      let sc = le16_bytes send_confirm in
      auth_header seq_confirm status_success
      ++ (sc
          ++ confirm_hash session.kck sc session.own_scalar_bytes session.own_element_bytes
              session.peer_scalar_bytes session.peer_element_bytes)

  unfoldable pub confirm_with :
      SaeProvider G → Session → List ℕ → Option (SaeProvider G × Result Step CryptoError)
  confirm_with p session pmkid =
      let frame = confirm_frame (next_confirm p) session in
      some (
        record p {
          state = confirmed session;
          pmkid = some pmkid;
          send_confirm = next_confirm p;
          last_sent = frame;
          sync = 0;
        },
        ok (send_step frame),
      )

  unfoldable pub on_commit :
      SaeProvider G → Commit G → List ℕ → Option (SaeProvider G × Result Step CryptoError)
  on_commit p commit body =
      settle p (parse_commit body >>= λ (scalar, element). session_of commit scalar element)
        (λ (session, pmkid). confirm_with p session pmkid)

  unfoldable pub check_confirm : Session → List ℕ → Outcome (Unit {0})
  check_confirm session body = do
    refuse_if (ltb (length body) (2 + hash_len)) bad_input
    refuse_if
        (not (
          bytes_eq
            (confirm_hash session.kck (take 2 body) session.peer_scalar_bytes
              session.peer_element_bytes session.own_scalar_bytes session.own_element_bytes)
            (slice 2 34 body)))
        auth_failed

  unfoldable pub on_confirm :
      SaeProvider G → Session → List ℕ → Option (SaeProvider G × Result Step CryptoError)
  on_confirm p session body =
      settle p (check_confirm session body)
        (λ _. some (record p { state = accepted; last_sent = [] }, ok (done_step session.pmk)))

  unfoldable pub on_token_request :
      SaeProvider G → Commit G → List ℕ → Option (SaeProvider G × Result Step CryptoError)
  on_token_request p commit body =
      settle p (parse_token body) (λ token. send_commit p (some token) commit)

  unfoldable pub start_commit : AuthContext → SaeProvider G → Option (Commit G)
  start_commit ctx p =
      elim (password_element G (password_token G ctx.ssid p.password) ctx.own_mac ctx.bssid) [
        | none ↦ none
        | some pwe ↦
            let rand = scalar_from G (take pwd_value_len p.seed) in
            let mask = scalar_from G (slice pwd_value_len seed_len p.seed) in
            let scalar = G.scalar_add rand mask in
            elim (encode_element G (G.neg (G.mul pwe mask))) [
              | none ↦ none
              | some element ↦ some (record {
                rand = rand;
                scalar = scalar;
                pwe = pwe;
                scalar_bytes = G.to_bytes scalar;
                element_bytes = element;
              })
            ]
      ]

  unfoldable pub is_idle : State G → Bool
  is_idle idle = true
  is_idle _ = false

  unfoldable pub start :
      AuthContext → SaeProvider G → Option (SaeProvider G × Result Step CryptoError)
  start ctx p =
      if not (is_idle p.state)
      then some (p, err protocol)
      else if not (akm_eq ctx.akm sae)
      then some (p, err unsupported_akm)
      else elim (start_commit ctx p) [
        | none ↦ none
        | some commit ↦ send_commit (record p { seed = replicate seed_len 0 }) p.token commit
      ]

  -- The sequence numbers with the statuses that go on.
  unfoldable pub is_expected : ℕ → ℕ → Bool
  is_expected seq status =
      (seq == seq_commit && (status == status_h2e || status == status_anti_clogging))
      || (seq == seq_confirm && status == status_success)

  unfoldable pub on_auth :
      State G → SaeProvider G → AuthFrame → Option (SaeProvider G × Result Step CryptoError)
  on_auth (committed commit) p auth =
      if not (auth.seq == seq_commit)
      then some (p, ok wait_step)
      else if auth.status == status_anti_clogging
      then on_token_request p commit auth.body
      else on_commit p commit auth.body
  on_auth (confirmed session) p auth =
      if auth.seq == seq_confirm then on_confirm p session auth.body else some (p, ok wait_step)
  on_auth accepted p auth = some (p, ok wait_step)
  on_auth idle p auth = some (p, err protocol)
  on_auth failed p auth = some (p, err auth_failed)

  unfoldable pub on_parsed :
      SaeProvider G → Outcome AuthFrame → Option (SaeProvider G × Result Step CryptoError)
  on_parsed p panics = none
  on_parsed p (refuses e) = some (p, err e)
  on_parsed p (returns auth) =
      if is_expected auth.seq auth.status then on_auth p.state p auth else some (p, err auth_failed)

  unfoldable pub on_frame :
      SaeProvider G → List ℕ → Option (SaeProvider G × Result Step CryptoError)
  on_frame p frame = on_parsed p (parse_auth frame)

  -- The counter is a byte, which wraps in a release build.
  unfoldable pub resend : SaeProvider G → SaeProvider G × Result Step CryptoError
  resend p =
      let sync = (p.sync + 1) % 256 in
      (
        record p { sync = sync },
        if ltb sync_max sync then err auth_failed else ok (send_step p.last_sent),
      )

  unfoldable pub on_timeout_in : State G → SaeProvider G → SaeProvider G × Result Step CryptoError
  on_timeout_in (committed commit) p = resend p
  on_timeout_in (confirmed session) p = resend p
  on_timeout_in accepted p = (p, ok wait_step)
  on_timeout_in failed p = (p, err auth_failed)
  on_timeout_in idle p = (p, err protocol)

  unfoldable pub on_timeout : SaeProvider G → SaeProvider G × Result Step CryptoError
  on_timeout p = on_timeout_in p.state p
