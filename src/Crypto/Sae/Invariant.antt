-- ===== src/Crypto/Sae/Invariant.antt =====
-- What stays true while one exchange runs (crates/caw-crypto/src/sae.rs, `SaeProvider`).
use caw.Prelude.{
  ℕ, zero, suc, ◌+◌, ◌-◌, ◌≤◌, ◌<◌, Bool, true, false, ◌&&◌, List, [], ◌∷◌, ◌++◌, ◌≡◌, refl, ap,
  inl, inr, ◌⊎◌, Option, none, some, Result, ok, err, drop, slice, length, Bool-cases, arith, All,
  length-take, get_or,
}
use caw.Prelude.Words.{IsByte, bytes_eq}
use caw.Crypto.{CryptoError, Step, send_step, wait_step, done_step}
use caw.Crypto.Kdf.{kdf_sha256}
use caw.Crypto.Sae.{
  SaeGroup, SaeProvider, State, Commit, Session, idle, committed, confirmed, accepted, failed,
  Outcome, returns, refuses, panics, ◌>>=◌,
}
use caw.Crypto.Sae.Laws.{IsSaeGroup}
use caw.Crypto.Sae.Element.{decode_scalar, decode_element, x_coordinate}
use caw.Crypto.Sae.Frames.{
  parse_auth, parse_commit, parse_token, auth_header, seq_confirm, status_success,
}
use caw.Crypto.Sae.Exchange.{commit_fields, session_of, derive, settle, check_confirm}

pub drop-IsByte : (n : ℕ) (xs : List ℕ) → All IsByte xs → All IsByte (drop n xs)
drop-IsByte zero xs h = h
drop-IsByte (suc n) [] h = tt
drop-IsByte (suc n) (x ∷ xs) h = drop-IsByte n xs (h.1)

get_or-IsByte : (xs : List ℕ) (i : ℕ) → All IsByte xs → get_or xs i 0 < 256
get_or-IsByte [] i h = omega arith
get_or-IsByte (x ∷ xs) zero h = h.0
get_or-IsByte (x ∷ xs) (suc i) h = get_or-IsByte xs i (h.1)

abbrev pub is_panic : {A : Type 0} → Outcome A → Bool
is_panic (returns a) = false
is_panic (refuses e) = false
is_panic panics = true

pub bind-is_panic :
    {A B : Type 0} (m : Outcome A) (f : A → Outcome B)
    → is_panic m ≡ false
    → ((a : A) → is_panic (f a) ≡ false)
    → is_panic (m >>= f) ≡ false
bind-is_panic (returns a) f h k = k a
bind-is_panic (refuses e) f h k = refl
bind-is_panic panics f h k = cc h

module _ (G : SaeGroup) (c : Commit G) where
  -- The frame carries this commit's scalar and element, or is a confirm.
  abbrev pub IsOwn : List ℕ → Type 0
  IsOwn frame =
      ((rest : List ℕ) × (frame ≡ commit_fields G c ++ rest))
      ⊎ ((rest : List ℕ) × (frame ≡ auth_header seq_confirm status_success ++ rest))

  abbrev pub HoldsIn : State G → List ℕ → Type 0
  HoldsIn (committed d) last = (d ≡ c) × IsOwn last
  HoldsIn (confirmed session) last = IsOwn last
  HoldsIn accepted last = Unit {0}
  HoldsIn failed last = Unit {0}
  HoldsIn idle last = ⊥

  abbrev pub Holds : SaeProvider G → Type 0
  Holds p = HoldsIn p.state p.last_sent

  abbrev pub SendsOwn : Result Step CryptoError → Type 0
  SendsOwn (ok (send_step frame)) = IsOwn frame
  SendsOwn (ok wait_step) = Unit {0}
  SendsOwn (ok (done_step pmk)) = Unit {0}
  SendsOwn (err e) = Unit {0}

  -- No panic, and the exchange still holds to its commit.
  abbrev pub IsGood : Option (SaeProvider G × Result Step CryptoError) → Type 0
  IsGood none = ⊥
  IsGood (some (p, result)) = Holds p × SendsOwn result

  pub settle-IsGood :
      {A : Type 0} (p : SaeProvider G) (outcome : Outcome A)
      (rest : A → Option (SaeProvider G × Result Step CryptoError))
      → is_panic outcome ≡ false
      → ((a : A) → outcome ≡ returns a → IsGood (rest a))
      → IsGood (settle G p outcome rest)
  unfolding settle
  settle-IsGood p (returns a) rest h good = good a refl
  settle-IsGood p (refuses e) rest h good = (tt, tt)
  settle-IsGood p panics rest h good = cc h

  x_coordinate-some :
      IsSaeGroup G
      → (point : G.Point) → G.is_identity point ≡ false
      → (x : List ℕ) × (x_coordinate G point ≡ some x)
  unfolding x_coordinate
  x_coordinate-some laws point live =
      let (x, (y, found)) = laws.coordinates_some point live in (x, ground arith)

  decode_scalar-is_panic : (bytes : List ℕ) → is_panic (decode_scalar G bytes) ≡ false
  unfolding decode_scalar
  decode_scalar-is_panic bytes = ground arith

  decode_element-is_panic : (bytes : List ℕ) → is_panic (decode_element G bytes) ≡ false
  unfolding decode_element
  decode_element-is_panic bytes = ground arith

  derive-is_panic :
      IsSaeGroup G
      → (d : Commit G) (scalar element : List ℕ) (s : G.Scalar) (e : G.Point)
      → is_panic (derive G d scalar element s e) ≡ false
  unfolding derive kdf_sha256
  derive-is_panic laws d scalar element s e =
      elim (Bool-cases (G.is_identity (G.mul (G.add (G.mul d.pwe s) e) d.rand))) [
        | inl gone ↦ rw gone refl
        | inr live ↦
            let (x, found) = x_coordinate-some laws (G.mul (G.add (G.mul d.pwe s) e) d.rand) live in
            rw (live, found) refl
      ]

  pub session_of-is_panic :
      IsSaeGroup G
      → (d : Commit G) (scalar element : List ℕ) → is_panic (session_of G d scalar element) ≡ false
  unfolding session_of
  session_of-is_panic laws d scalar element =
      elim (Bool-cases (bytes_eq scalar d.scalar_bytes && bytes_eq element d.element_bytes)) [
        | inl same ↦ rw same refl
        | inr other ↦ rw other (
            bind-is_panic (decode_scalar G scalar)
              (λ s. decode_element G element >>= λ e. derive G d scalar element s e)
              (decode_scalar-is_panic scalar)
              (λ s.
                bind-is_panic (decode_element G element) (λ e. derive G d scalar element s e)
                  (decode_element-is_panic element) (derive-is_panic laws d scalar element s)))
      ]

  pub parse_commit-is_panic : (body : List ℕ) → is_panic (parse_commit body) ≡ false
  unfolding parse_commit
  parse_commit-is_panic body = ground arith

  pub parse_token-is_panic : (body : List ℕ) → is_panic (parse_token body) ≡ false
  unfolding parse_token
  parse_token-is_panic body = ground arith

  pub check_confirm-is_panic :
      (session : Session) (body : List ℕ) → is_panic (check_confirm G session body) ≡ false
  unfolding check_confirm
  check_confirm-is_panic session body = ground arith

  pub parse_auth-is_panic : (frame : List ℕ) → is_panic (parse_auth frame) ≡ false
  unfolding parse_auth
  parse_auth-is_panic frame = ground arith

  abbrev token_len : List ℕ → ℕ
  token_len body = get_or (drop 2 body) 1 0

  parse_token-eq-returns :
      (body token : List ℕ)
      → parse_token body ≡ returns token
      → (0 < token_len body) × (slice 3 (2 + token_len body) (drop 2 body) ≡ token)
  unfolding parse_token
  parse_token-eq-returns body token e = (ground arith, ground arith)

  pub parse_token_size :
      (body token : List ℕ)
      → All IsByte body
      → parse_token body ≡ returns token
      → length token ≤ 254
  parse_token_size body token bytes e =
      let (positive, whole) = parse_token-eq-returns body token e in
      let small : token_len body < 256 = get_or-IsByte (drop 2 body) 1 (drop-IsByte 2 body bytes) in
      omega (arith, ap length whole, length-take (2 + token_len body - 3) (drop 3 (drop 2 body)))
