-- ===== src/Crypto/Sae/Frames.antt =====
-- The fields of authentication frames (crates/caw-crypto/src/sae.rs, `auth_header`, `parse_auth`,
-- `parse_commit`, `parse_token`).
use caw.Prelude.{ℕ, ◌+◌, ◌*◌, ◌-◌, not, ◌||◌, List, ◌++◌, ltb, ◌==◌, length, drop, slice, get_or}
use caw.Crypto.{bad_input, auth_failed}
use caw.Crypto.Kdf.{le16_bytes}
use caw.Crypto.Sae.{Outcome, returns, ◌>>◌, refuse_if}

abbrev pub auth_alg_sae : ℕ
auth_alg_sae = 3

abbrev pub seq_commit : ℕ
seq_commit = 1

abbrev pub seq_confirm : ℕ
seq_confirm = 2

abbrev pub status_success : ℕ
status_success = 0

abbrev pub status_anti_clogging : ℕ
status_anti_clogging = 76

abbrev pub status_h2e : ℕ
status_h2e = 126

abbrev pub group_p256 : ℕ
group_p256 = 19

abbrev pub eid_extension : ℕ
eid_extension = 255

abbrev pub eid_ext_anti_clogging : ℕ
eid_ext_anti_clogging = 93

unfoldable pub auth_header : ℕ → ℕ → List ℕ
auth_header seq status = le16_bytes auth_alg_sae ++ (le16_bytes seq ++ le16_bytes status)

-- Of a slice of two octets, and the octet at an index within bounds.
abbrev pub le16 : List ℕ → ℕ
le16 bytes = get_or bytes 0 0 + get_or bytes 1 0 * 256

pub record AuthFrame : Type 0 where
  pub seq : ℕ
  pub status : ℕ
  pub body : List ℕ

unfoldable pub parse_auth : List ℕ → Outcome AuthFrame
parse_auth frame = do
  refuse_if (ltb (length frame) 6) bad_input
  refuse_if (not (le16 (slice 0 2 frame) == auth_alg_sae)) bad_input
  returns (record {
    seq = le16 (slice 2 4 frame);
    status = le16 (slice 4 6 frame);
    body = drop 6 frame;
  })

abbrev pub fixed_len : ℕ
fixed_len = 98

unfoldable pub parse_commit : List ℕ → Outcome (List ℕ × List ℕ)
parse_commit body = do
  refuse_if (ltb (length body) fixed_len) bad_input
  refuse_if (not (le16 (slice 0 2 body) == group_p256)) auth_failed
  returns (slice 2 34 body, slice 34 fixed_len body)

unfoldable pub parse_token : List ℕ → Outcome (List ℕ)
parse_token body =
    let element = drop 2 body in
    let len = get_or element 1 0 in
    do
      refuse_if (ltb (length body) 5) bad_input
      refuse_if
          (not (get_or element 0 0 == eid_extension) || (len == 0 || ltb (length element - 2) len))
          bad_input
      refuse_if (not (get_or element 2 0 == eid_ext_anti_clogging)) bad_input
      returns (slice 3 (2 + len) element)
