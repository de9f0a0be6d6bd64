-- ===== src/Core/Rsn.antt =====
-- The RSN element of the association request (crates/caw-core/src/rsn.rs).
pub mod Size
use caw.Prelude.{
  ℕ, ◌+◌, ◌/◌, ◌%◌, Bool, List, [], ◌∷◌, ◌++◌, Option, none, some, if◌then◌else◌, ltb, length,
}
use caw.Prelude.Words.{u32_bytes}
use caw.Wifi.Suites.{Cipher, Akm}
use caw.Wifi.Nl80211.{cipher_suite, akm_suite, suite_use_group}

pub record StationRsn : Type 0 where
  pub group : Cipher
  pub pairwise : Cipher
  pub akm : Akm
  pub mfp_capable : Bool
  pub mfp_required : Bool
  pub pmkid : Option (List ℕ)
  pub group_mgmt : Option Cipher

abbrev pub eid_rsn : ℕ
eid_rsn = 48

abbrev pub le_bytes : ℕ → List ℕ
le_bytes n = n % 256 ∷ n / 256 % 256 ∷ []

abbrev or_else : Option ℕ → ℕ → ℕ
or_else none d = d
or_else (some n) d = n

unfoldable pub cipher_selector : Cipher → List ℕ
cipher_selector cipher = u32_bytes (or_else (cipher_suite cipher) suite_use_group)

unfoldable pub akm_selector : Akm → List ℕ
akm_selector akm = u32_bytes (akm_suite akm)

-- Bits 6 and 7.
unfoldable pub capabilities : StationRsn → ℕ
capabilities rsn = (if rsn.mfp_capable then 64 else 0) + (if rsn.mfp_required then 128 else 0)

-- The PMKID count, the PMKID and the group management cipher.
unfoldable pub tail_bytes : Option (List ℕ) → Option Cipher → List ℕ
tail_bytes none none = []
tail_bytes none (some cipher) = le_bytes 0 ++ cipher_selector cipher
tail_bytes (some pmkid) none = le_bytes 1 ++ pmkid
tail_bytes (some pmkid) (some cipher) = le_bytes 1 ++ pmkid ++ cipher_selector cipher

unfoldable pub body_bytes : StationRsn → List ℕ
body_bytes rsn =
    le_bytes 1
    ++ cipher_selector rsn.group
    ++ le_bytes 1
    ++ cipher_selector rsn.pairwise
    ++ le_bytes 1
    ++ akm_selector rsn.akm
    ++ le_bytes (capabilities rsn)
    ++ tail_bytes rsn.pmkid rsn.group_mgmt

-- None where the code panics: the length has to fit in a byte.
unfoldable pub encode : StationRsn → Option (List ℕ)
encode rsn =
    let body = body_bytes rsn in
    if ltb 255 (length body) then none else some (eid_rsn ∷ length body ∷ body)
