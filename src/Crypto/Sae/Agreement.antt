-- ===== src/Crypto/Sae/Agreement.antt =====
-- Two ends of one exchange (crates/caw-crypto/src/sae.rs).
use mathlib.Core.Path.{subst}
use caw.Prelude.{
  ℕ, Bool, List, [], ◌≡◌, ◌≢◌, refl, ap, sym, ◌∙◌, arith, length, take, slice, replicate,
  Bool-cases, inl, inr, true, false, not, ◌&&◌, some, ◌||◌,
}
use caw.Prelude.Words.{bytes_eq, bytes_eq→eq}
use caw.Wifi.Suites.{sae}
use caw.Crypto.{AuthContext}
use caw.Crypto.Kdf.{kdf_sha256}
use caw.Crypto.Sae.{SaeGroup, SaeProvider, Commit, Session, returns, confirmed, hash_len}
use caw.Crypto.Sae.Derivation.{
  password_element_comm, IsMade, decode_element-encode, session_of-made, start_commit-IsMade,
}
use caw.Crypto.Sae.Meeting.{
  IsFacing, meet, sent, finished, waiting, start-new, on_frame-commit, on_frame-confirm,
}
use caw.Crypto.Sae.Laws.{IsSaeGroup}
use caw.Crypto.Sae.Element.{password_element, password_token}
use caw.Crypto.Sae.Exchange.{
  kck_and_pmk_label, start_commit, new, session_of, confirm_frame, confirm_with, next_confirm,
}

module _ (G : SaeGroup) where
  -- The shared point of two commits, and a scalar that a commit may have.
  abbrev shared : Commit G → Commit G → G.Point
  shared c peer = G.mul (G.mul c.pwe peer.rand) c.rand

  unfoldable pub is_proper : G.Scalar → Bool
  is_proper s = not (G.scalar_eq s G.zero_scalar || G.scalar_eq s G.one_scalar)

  same_password :
      (password seed_a seed_b : List ℕ)
      → (new G password seed_a).password ≡ (new G password seed_b).password
  unfolding new
  same_password password seed_a seed_b = refl

  same_point :
      (ctx_a ctx_b : AuthContext) (a b : SaeProvider G)
      → IsFacing ctx_a ctx_b
      → a.password ≡ b.password
      → password_element G (password_token G ctx_a.ssid a.password) ctx_a.own_mac ctx_a.bssid
        ≡ password_element G (password_token G ctx_b.ssid b.password) ctx_b.own_mac ctx_b.bssid
  same_point ctx_a ctx_b a b facing same =
      rw
        (
          facing.same_ssid,
          same,
          facing.bssid_of_a,
          facing.bssid_of_b,
          password_element_comm G (password_token G ctx_b.ssid b.password) ctx_b.own_mac
              ctx_a.own_mac,
        )
        refl

  -- The session and the PMKID of one end, from the key material that both ends compute.
  session_with : Commit G → Commit G → List ℕ → Session
  session_with c peer keys = record {
    peer_scalar_bytes = peer.scalar_bytes;
    peer_element_bytes = peer.element_bytes;
    own_scalar_bytes = c.scalar_bytes;
    own_element_bytes = c.element_bytes;
    kck = slice 0 32 keys;
    pmk = slice 32 64 keys;
  }

  keys_exist :
      (key label context : List ℕ)
      → (keys : List ℕ) × (kdf_sha256 G.hmac_sha256 key label context 64 ≡ some keys)
  unfolding kdf_sha256
  keys_exist key label context = (_, refl)

  meets :
      (laws : IsSaeGroup G) (ctx_a ctx_b : AuthContext) (password seed_a seed_b : List ℕ)
      (ca cb : Commit G) (keys pmkid : List ℕ)
      → ctx_a.akm ≡ sae
      → ctx_b.akm ≡ sae
      → start_commit G ctx_a (new G password seed_a) ≡ some ca
      → start_commit G ctx_b (new G password seed_b) ≡ some cb
      → (length ca.scalar_bytes ≡ 32) × (length ca.element_bytes ≡ 64)
      → (length cb.scalar_bytes ≡ 32) × (length cb.element_bytes ≡ 64)
      → session_of G ca cb.scalar_bytes cb.element_bytes ≡ returns (session_with ca cb keys, pmkid)
      → session_of G cb ca.scalar_bytes ca.element_bytes ≡ returns (session_with cb ca keys, pmkid)
      → meet G ctx_a ctx_b (new G password seed_a) (new G password seed_b)
        ≡ some ((slice 32 64 keys, some pmkid), (slice 32 64 keys, some pmkid))
  unfolding meet sent finished confirm_with next_confirm session_with
  meets laws ctx_a ctx_b password seed_a seed_b ca cb keys pmkid is_a is_b made_a made_b size_a
        size_b sa sb =
      let confirming : Commit G → Session → SaeProvider G = λ c session.
        record (waiting G password c) {
          state = confirmed session;
          pmkid = some pmkid;
          send_confirm = 1;
          last_sent = confirm_frame G 1 session;
          sync = 0;
        } in
      rw
        (
          start-new G ctx_a password seed_a ca is_a made_a,
          start-new G ctx_b password seed_b cb is_b made_b,
          on_frame-commit G (waiting G password ca) ca cb (session_with ca cb keys) pmkid [] refl
              (size_b.0) (size_b.1) sa,
          on_frame-commit G (waiting G password cb) cb ca (session_with cb ca keys) pmkid [] refl
              (size_a.0) (size_a.1) sb,
          on_frame-confirm G laws (confirming ca (session_with ca cb keys))
              (session_with ca cb keys) (session_with cb ca keys) 1 refl refl,
          on_frame-confirm G laws (confirming cb (session_with cb ca keys))
              (session_with cb ca keys) (session_with ca cb keys) 1 refl refl,
        )
        refl

  sizes_of :
      (laws : IsSaeGroup G) (pwe : G.Point) (c : Commit G)
      → IsMade G pwe c
      → (length c.scalar_bytes ≡ 32) × (length c.element_bytes ≡ 64)
  sizes_of laws pwe c made = (
    ap length made.has_bytes ∙ laws.length-to_bytes c.scalar,
    (decode_element-encode G laws (G.neg (G.mul pwe made.mask)) c.element_bytes made.has_element).1,
  )

  differ :
      (c peer : Commit G)
      → peer.scalar_bytes ≢ c.scalar_bytes
      → (bytes_eq peer.scalar_bytes c.scalar_bytes && bytes_eq peer.element_bytes c.element_bytes)
        ≡ false
  differ c peer apart = elim (Bool-cases (bytes_eq peer.scalar_bytes c.scalar_bytes)) [
    | inl equal ↦ absurd (apart (bytes_eq→eq peer.scalar_bytes c.scalar_bytes equal))
    | inr other ↦ rw other refl
  ]

  not_degenerate :
      (s : G.Scalar)
      → is_proper s ≡ true
      → (G.scalar_eq s G.zero_scalar || G.scalar_eq s G.one_scalar) ≡ false
  unfolding is_proper
  not_degenerate s h = ground arith

  agree_at :
      (laws : IsSaeGroup G) (ctx_a ctx_b : AuthContext) (password seed_a seed_b : List ℕ)
      (ca cb : Commit G) (pwe : G.Point) (x y keys : List ℕ)
      → IsFacing ctx_a ctx_b
      → start_commit G ctx_a (new G password seed_a) ≡ some ca
      → start_commit G ctx_b (new G password seed_b) ≡ some cb
      → IsMade G pwe ca
      → IsMade G pwe cb
      → ca.scalar_bytes ≢ cb.scalar_bytes
      → is_proper ca.scalar ≡ true
      → is_proper cb.scalar ≡ true
      → G.coordinates (G.mul (G.mul pwe cb.rand) ca.rand) ≡ some (x, y)
      → kdf_sha256 G.hmac_sha256
          (G.hmac_sha256 (replicate hash_len 0) x)
          kck_and_pmk_label
          (G.to_bytes (G.scalar_add ca.scalar cb.scalar))
          64
        ≡ some keys
      → (pmk : List ℕ) × (pmkid : List ℕ) × (meet G ctx_a ctx_b
            (new G password seed_a)
            (new G password seed_b)
          ≡ some ((pmk, some pmkid), (pmk, some pmkid)))
  unfolding session_with
  agree_at laws ctx_a ctx_b password seed_a seed_b ca cb pwe x y keys facing start_a start_b made_a
        made_b apart proper_a proper_b found derives =
      let sum : G.scalar_add cb.scalar ca.scalar ≡ G.scalar_add ca.scalar cb.scalar =
        laws.scalar_add_comm cb.scalar ca.scalar in
      let point : G.mul (G.mul pwe ca.rand) cb.rand ≡ G.mul (G.mul pwe cb.rand) ca.rand =
        laws.mul_comm pwe ca.rand cb.rand in
      let session_a : session_of G ca cb.scalar_bytes cb.element_bytes
          ≡ returns
              (session_with ca cb keys, take 16 (G.to_bytes (G.scalar_add ca.scalar cb.scalar))) =
        session_of-made G laws pwe ca cb x y keys made_a.same_pwe made_b
          (differ ca cb (λ e. apart (sym e))) (not_degenerate cb.scalar proper_b) found derives in
      let session_b : session_of G cb ca.scalar_bytes ca.element_bytes
          ≡ returns
              (session_with cb ca keys, take 16 (G.to_bytes (G.scalar_add ca.scalar cb.scalar))) =
        rw (← sum) (
          session_of-made G laws pwe cb ca x y keys made_b.same_pwe made_a (differ cb ca apart)
            (not_degenerate ca.scalar proper_a) (rw point found) (rw sum derives)) in
      (
        slice 32 64 keys,
        take 16 (G.to_bytes (G.scalar_add ca.scalar cb.scalar)),
        meets laws ctx_a ctx_b password seed_a seed_b ca cb keys
            (take 16 (G.to_bytes (G.scalar_add ca.scalar cb.scalar))) facing.sae_of_a
            facing.sae_of_b start_a start_b (sizes_of laws pwe ca made_a)
            (sizes_of laws pwe cb made_b) session_a session_b,
      )

  -- Two new providers with one password, of one network and facing each other, that each receive what
  -- the other sends both finish, with the same PMK and the same PMKID: no step errs or panics. Their
  -- commits differ, no scalar is zero or one, and the shared point is not the identity.
  pub agree :
      (laws : IsSaeGroup G) (ctx_a ctx_b : AuthContext) (password seed_a seed_b : List ℕ)
      (ca cb : Commit G)
      → IsFacing ctx_a ctx_b
      → start_commit G ctx_a (new G password seed_a) ≡ some ca
      → start_commit G ctx_b (new G password seed_b) ≡ some cb
      → ca.scalar_bytes ≢ cb.scalar_bytes
      → is_proper ca.scalar ≡ true
      → is_proper cb.scalar ≡ true
      → G.is_identity (shared ca cb) ≡ false
      → (pmk : List ℕ) × (pmkid : List ℕ) × (meet G ctx_a ctx_b
            (new G password seed_a)
            (new G password seed_b)
          ≡ some ((pmk, some pmkid), (pmk, some pmkid)))
  agree laws ctx_a ctx_b password seed_a seed_b ca cb facing start_a start_b apart proper_a proper_b
        live =
      let (pwe, found_a, made_a) =
        start_commit-IsMade G laws ctx_a (new G password seed_a) ca start_a in
      let (pwe_b, found_b, made_b) =
        start_commit-IsMade G laws ctx_b (new G password seed_b) cb start_b in
      let one_point : pwe_b ≡ pwe = cc (
        found_a,
        found_b,
        same_point ctx_a ctx_b (new G password seed_a) (new G password seed_b) facing
            (same_password password seed_a seed_b),
      ) in
      let (x, (y, found)) = laws.coordinates_some (shared ca cb) live in
      let (keys, derives) =
        keys_exist (G.hmac_sha256 (replicate hash_len 0) x) kck_and_pmk_label
          (G.to_bytes (G.scalar_add ca.scalar cb.scalar)) in
      agree_at laws ctx_a ctx_b password seed_a seed_b ca cb pwe x y keys facing start_a start_b
        made_a (subst (λ q. IsMade G q cb) one_point made_b) apart proper_a proper_b
        (rw (← made_a.same_pwe) found) derives
