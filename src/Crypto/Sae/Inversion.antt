-- ===== src/Crypto/Sae/Inversion.antt =====
-- What the frames that are built parse to (crates/caw-crypto/src/sae.rs).
use caw.Prelude.{
  ℕ, ◌-◌, List, ◌++◌, ◌≡◌, refl, ◌≤◌, arith, length, length-append, drop, slice, le→not_ltb,
  take-append, drop-append,
}
use caw.Crypto.Kdf.{le16_bytes}
use caw.Crypto.Sae.{returns}
use caw.Crypto.Sae.Frames.{
  auth_header, parse_auth, parse_commit, seq_commit, seq_confirm, status_success, status_h2e,
  group_p256,
}

-- The two headers that are sent.
pub parse_auth-commit :
    (body : List ℕ)
    → parse_auth (auth_header seq_commit status_h2e ++ body)
      ≡ returns (record { seq = seq_commit; status = status_h2e; body = body })
unfolding parse_auth auth_header
parse_auth-commit body = ground arith

pub parse_auth-confirm :
    (body : List ℕ)
    → parse_auth (auth_header seq_confirm status_success ++ body)
      ≡ returns (record { seq = seq_confirm; status = status_success; body = body })
unfolding parse_auth auth_header
parse_auth-confirm body = ground arith

pub slice-append :
    (from to : ℕ) (front middle rest : List ℕ)
    → length front ≡ from
    → length middle ≡ to - from
    → slice from to (front ++ (middle ++ rest)) ≡ middle
slice-append from to front middle rest h k =
    rw (drop-append from front (middle ++ rest) h, take-append (to - from) middle rest k) refl

pub parse_commit-fields :
    (scalar element rest : List ℕ)
    → length scalar ≡ 32
    → length element ≡ 64
    → parse_commit (le16_bytes group_p256 ++ (scalar ++ (element ++ rest)))
      ≡ returns (scalar, element)
unfolding parse_commit
parse_commit-fields scalar element rest h k =
    let long : 98 ≤ length (le16_bytes group_p256 ++ (scalar ++ (element ++ rest))) =
      omega (arith, length-append scalar (element ++ rest), length-append element rest) in
    let after : drop 32 (scalar ++ (element ++ rest)) ≡ element ++ rest =
      drop-append 32 scalar (element ++ rest) h in
    rw
      (
        le→not_ltb (length (le16_bytes group_p256 ++ (scalar ++ (element ++ rest)))) 98 long,
        take-append 32 scalar (element ++ rest) h,
        after,
        take-append 64 element rest k,
      )
      refl
