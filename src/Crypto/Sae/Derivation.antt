-- ===== src/Crypto/Sae/Derivation.antt =====
-- What two commits derive (crates/caw-crypto/src/sae.rs, `on_commit`).
use mathlib.Core.Path.{subst}
use caw.Prelude.{
  ℕ, List, ◌∷◌, ◌++◌, ◌≡◌, refl, ap, ◌∙◌, arith, length, length-append, take, slice, replicate,
  Bool-cases, Option-cases, inl, inr, false, ◌&&◌, none, some, ◌||◌,
}
use caw.Prelude.Words.{bytes_eq}
use caw.Crypto.{AuthContext}
use caw.Crypto.Kdf.{bytes_lt, kdf_sha256}
use caw.Crypto.Kdf.Symmetry.{bytes_lt-asymmetric, bytes_lt-antisymmetric}
use caw.Crypto.Sae.{SaeGroup, SaeProvider, Commit, returns, hash_len}
use caw.Crypto.Sae.Laws.{IsSaeGroup}
use caw.Crypto.Sae.Element.{
  address_value, password_element, password_token, encode_element, decode_scalar, decode_element,
  x_coordinate, scalar_from,
}
use caw.Crypto.Sae.Exchange.{kck_and_pmk_label, start_commit, session_of, derive}

pub address_value_comm :
    (G : SaeGroup) (own peer : List ℕ) → address_value G own peer ≡ address_value G peer own
unfolding address_value
address_value_comm G own peer = elim (Bool-cases (bytes_lt own peer)) [
  | inl lower ↦ rw (lower, bytes_lt-asymmetric own peer lower) refl
  | inr not_lower ↦ elim (Bool-cases (bytes_lt peer own)) [
    | inl upper ↦ rw (not_lower, upper) refl
    | inr neither ↦ rw (bytes_lt-antisymmetric own peer not_lower neither) refl
  ]
]

pub password_element_comm :
    (G : SaeGroup) (pt : G.Point) (own peer : List ℕ)
    → password_element G pt own peer ≡ password_element G pt peer own
unfolding password_element
password_element_comm G pt own peer = ground (arith, address_value_comm G own peer)

-- How a commit was made.
pub record IsMade (G : SaeGroup) (pwe : G.Point) (c : Commit G) : Type 0 where
  pub mask : G.Scalar
  pub same_pwe : c.pwe ≡ pwe
  pub has_scalar : c.scalar ≡ G.scalar_add c.rand mask
  pub has_bytes : c.scalar_bytes ≡ G.to_bytes c.scalar
  pub has_element : encode_element G (G.neg (G.mul pwe mask)) ≡ some c.element_bytes

module _ (G : SaeGroup) (laws : IsSaeGroup G) where
  none_coordinates :
      (bytes : List ℕ) (p : G.Point) → G.coordinates p ≡ none → encode_element G p ≡ some bytes → ⊥
  unfolding encode_element
  none_coordinates bytes p nothing e = ground arith

  some_coordinates :
      (bytes : List ℕ) (p : G.Point) (x y : List ℕ)
      → G.coordinates p ≡ some (x, y)
      → encode_element G p ≡ some bytes
      → x ++ y ≡ bytes
  unfolding encode_element
  some_coordinates bytes p x y found e = ground arith

  encode_element-eq-some :
      (p : G.Point) (bytes : List ℕ)
      → encode_element G p ≡ some bytes
      → (x : List ℕ) × (y : List ℕ) × (G.coordinates p ≡ some (x, y)) × (x ++ y ≡ bytes)
  unfolding encode_element
  encode_element-eq-some p bytes e = elim (Option-cases (G.coordinates p)) [
    | inl nothing ↦ absurd (none_coordinates bytes p nothing e)
    | inr ((x, y), found) ↦ (x, y, found, some_coordinates bytes p x y found e)
  ]

  -- What a peer reads of a commit that was made.
  pub decode_element-encode :
      (p : G.Point) (bytes : List ℕ)
      → encode_element G p ≡ some bytes
      → (decode_element G bytes ≡ returns p) × (length bytes ≡ 64)
  unfolding decode_element
  decode_element-encode p bytes e =
      let (x, y, found, whole) = encode_element-eq-some p bytes e in
      let sizes : (length x ≡ 32) × (length y ≡ 32) = laws.coordinates_sizes p x y found in
      let reads : G.from_sec1 (4 ∷ bytes) ≡ some p =
        rw (← whole) (laws.from_sec1-coordinates p x y found) in
      (
        rw (reads, laws.coordinates_proper p x y found) refl,
        omega (arith, ap length whole, length-append x y),
      )

  pub decode_scalar-to_bytes :
      (s : G.Scalar)
      → (G.scalar_eq s G.zero_scalar || G.scalar_eq s G.one_scalar) ≡ false
      → decode_scalar G (G.to_bytes s) ≡ returns s
  unfolding decode_scalar
  decode_scalar-to_bytes s h = rw (laws.from_repr-to_bytes s, h) refl

  shared_point :
      (pwe : G.Point) (rand peer_rand peer_mask : G.Scalar)
      → G.mul
          (G.add (G.mul pwe (G.scalar_add peer_rand peer_mask)) (G.neg (G.mul pwe peer_mask)))
          rand
        ≡ G.mul (G.mul pwe peer_rand) rand
  shared_point pwe rand peer_rand peer_mask =
      ap (λ p. G.mul p rand)
        (ap (λ p. G.add p (G.neg (G.mul pwe peer_mask)))
            (laws.mul-scalar_add pwe peer_rand peer_mask)
          ∙ laws.add-neg (G.mul pwe peer_rand) (G.mul pwe peer_mask))

  x_coordinate-some :
      (p : G.Point) (x y : List ℕ) → G.coordinates p ≡ some (x, y) → x_coordinate G p ≡ some x
  unfolding x_coordinate
  x_coordinate-some p x y shared = ground arith

  pub session_of-made :
      (pwe : G.Point) (c peer : Commit G) (x y keys : List ℕ)
      → c.pwe ≡ pwe
      → IsMade G pwe peer
      → (bytes_eq peer.scalar_bytes c.scalar_bytes && bytes_eq peer.element_bytes c.element_bytes)
        ≡ false
      → (G.scalar_eq peer.scalar G.zero_scalar || G.scalar_eq peer.scalar G.one_scalar) ≡ false
      → G.coordinates (G.mul (G.mul pwe peer.rand) c.rand) ≡ some (x, y)
      → kdf_sha256 G.hmac_sha256
          (G.hmac_sha256 (replicate hash_len 0) x)
          kck_and_pmk_label
          (G.to_bytes (G.scalar_add c.scalar peer.scalar))
          64
        ≡ some keys
      → session_of G c peer.scalar_bytes peer.element_bytes
        ≡ returns (
          record {
            peer_scalar_bytes = peer.scalar_bytes;
            peer_element_bytes = peer.element_bytes;
            own_scalar_bytes = c.scalar_bytes;
            own_element_bytes = c.element_bytes;
            kck = slice 0 32 keys;
            pmk = slice 32 64 keys;
          },
          take 16 (G.to_bytes (G.scalar_add c.scalar peer.scalar)),
        )
  unfolding session_of derive
  session_of-made pwe c peer x y keys same made differs proper shared derives =
      let point : G.Point = G.neg (G.mul pwe made.mask) in
      let k : G.mul (G.add (G.mul c.pwe peer.scalar) point) c.rand
          ≡ G.mul (G.mul pwe peer.rand) c.rand =
        rw (same, made.has_scalar) (shared_point pwe c.rand peer.rand made.mask) in
      let scalar_read : decode_scalar G peer.scalar_bytes ≡ returns peer.scalar =
        rw made.has_bytes (decode_scalar-to_bytes peer.scalar proper) in
      let element_read : decode_element G peer.element_bytes ≡ returns point =
        (decode_element-encode point peer.element_bytes made.has_element).0 in
      rw
        (
          differs,
          scalar_read,
          element_read,
          k,
          laws.coordinates_proper (G.mul (G.mul pwe peer.rand) c.rand) x y shared,
          x_coordinate-some (G.mul (G.mul pwe peer.rand) c.rand) x y shared,
          derives,
        )
        refl

  no_element :
      (ctx : AuthContext) (p : SaeProvider G) (c : Commit G)
      → password_element G (password_token G ctx.ssid p.password) ctx.own_mac ctx.bssid ≡ none
      → start_commit G ctx p ≡ some c
      → ⊥
  unfolding start_commit
  no_element ctx p c nothing e = ground arith

  IsMade-with :
      (ctx : AuthContext) (p : SaeProvider G) (c : Commit G) (pwe : G.Point)
      → password_element G (password_token G ctx.ssid p.password) ctx.own_mac ctx.bssid ≡ some pwe
      → start_commit G ctx p ≡ some c
      → IsMade G pwe c
  unfolding start_commit
  IsMade-with ctx p c pwe found e =
      let rand : G.Scalar = scalar_from G (take 48 p.seed) in
      let mask : G.Scalar = scalar_from G (slice 48 96 p.seed) in
      elim (Option-cases (encode_element G (G.neg (G.mul pwe mask)))) [
        | inl nothing ↦ absurd (ground arith)
        | inr (element, encoded) ↦
            let is_c : record {
              rand = rand;
              scalar = G.scalar_add rand mask;
              pwe = pwe;
              scalar_bytes = G.to_bytes (G.scalar_add rand mask);
              element_bytes = element;
            }
                ≡ c =
              ground arith in
            subst (λ d. IsMade G pwe d) is_c
              (record {
                mask = mask;
                same_pwe = refl;
                has_scalar = refl;
                has_bytes = refl;
                has_element = encoded;
              })
      ]

  pub start_commit-IsMade :
      (ctx : AuthContext) (p : SaeProvider G) (c : Commit G)
      → start_commit G ctx p ≡ some c
      → (pwe : G.Point) × (password_element G
            (password_token G ctx.ssid p.password)
            ctx.own_mac
            ctx.bssid
          ≡ some pwe)
        × IsMade G pwe c
  unfolding start_commit
  start_commit-IsMade ctx p c e =
      elim (Option-cases
        (password_element G (password_token G ctx.ssid p.password) ctx.own_mac ctx.bssid)) [
          | inl nothing ↦ absurd (no_element ctx p c nothing e)
          | inr (pwe, found) ↦ (pwe, found, IsMade-with ctx p c pwe found e)
        ]
