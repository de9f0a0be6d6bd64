-- ===== src/Crypto/Sae/Reflection.antt =====
-- Our own commit, come back (crates/caw-crypto/src/sae.rs, `on_commit`).
use caw.Prelude.{ℕ, List, ◌++◌, ◌≡◌, refl, ap, ◌∙◌, some, err, length}
use caw.Crypto.{auth_failed}
use caw.Crypto.Sae.{SaeGroup, SaeProvider, Commit, committed, failed, refuses}
use caw.Crypto.Sae.Laws.{IsSaeGroup}
use caw.Crypto.Sae.Frames.{seq_commit}
use caw.Crypto.Sae.Exchange.{
  on_frame, on_auth, on_commit, commit_fields, session_of, settle, is_expected,
}
use caw.Crypto.Sae.Derivation.{IsMade, decode_element-encode}
use caw.Crypto.Sae.Meeting.{parse_fields, on_frame-expected}
use caw.Crypto.Sae.Inversion.{parse_commit-fields}
use caw.Crypto.Sae.Frames.{status_h2e, group_p256}
use caw.Crypto.Kdf.{le16_bytes}
use caw.Prelude.Words.{bytes_eq_self}

module _ (G : SaeGroup) (laws : IsSaeGroup G) where
  session_of-own :
      (c : Commit G) → session_of G c c.scalar_bytes c.element_bytes ≡ refuses auth_failed
  unfolding session_of
  session_of-own c = rw (bytes_eq_self c.scalar_bytes, bytes_eq_self c.element_bytes) refl

  -- A commit that comes back to the provider which made it, with any elements behind it, is refused and
  -- ends the exchange: no confirm goes out and no key is derived.
  pub on_frame-own_commit :
      (p : SaeProvider G) (c : Commit G) (pwe : G.Point) (rest : List ℕ)
      → p.state ≡ committed c
      → IsMade G pwe c
      → on_frame G p (commit_fields G c ++ rest)
        ≡ some (record p { state = failed }, err auth_failed)
  unfolding on_auth is_expected on_commit settle
  on_frame-own_commit p c pwe rest waits made =
      let h : length c.scalar_bytes ≡ 32 =
        ap length made.has_bytes ∙ laws.length-to_bytes c.scalar in
      let k : length c.element_bytes ≡ 64 =
        (decode_element-encode G laws (G.neg (G.mul pwe made.mask)) c.element_bytes
          made.has_element).1 in
      let body : List ℕ = le16_bytes group_p256 ++ (c.scalar_bytes ++ (c.element_bytes ++ rest)) in
      on_frame-expected G p (committed c) (commit_fields G c ++ rest)
        (record { seq = seq_commit; status = status_h2e; body = body }) (parse_fields G c rest) refl
        waits
      ∙ rw (parse_commit-fields c.scalar_bytes c.element_bytes rest h k, session_of-own c) refl
