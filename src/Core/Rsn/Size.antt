-- ===== src/Core/Rsn/Size.antt =====
-- How long the element can be (crates/caw-core/src/rsn.rs, `encode`).
use caw.Prelude.{
  ℕ, List, [], ◌∷◌, ◌≡◌, refl, ◌≤◌, Option, none, some, arith, length, length-append, le→not_ltb,
}
use caw.Prelude.Words.{u32_bytes}
use caw.Wifi.Suites.{Cipher}
use caw.Core.Rsn.{
  StationRsn, encode, body_bytes, tail_bytes, cipher_selector, akm_selector, eid_rsn,
}

-- A PMKID has sixteen octets.
abbrev pub IsPmkid : Option (List ℕ) → Type 0
IsPmkid none = Unit {0}
IsPmkid (some pmkid) = length pmkid ≡ 16

length-tail_bytes :
    (pmkid : Option (List ℕ)) (cipher : Option Cipher)
    → IsPmkid pmkid
    → length (tail_bytes pmkid cipher) ≤ 22
unfolding tail_bytes cipher_selector u32_bytes
length-tail_bytes none none h = omega arith
length-tail_bytes none (some cipher) h = omega arith
length-tail_bytes (some pmkid) none h = omega (arith, length-append pmkid [])
length-tail_bytes (some pmkid) (some cipher) h =
    omega (arith, length-append pmkid (cipher_selector cipher))

length-body_bytes : (rsn : StationRsn) → IsPmkid rsn.pmkid → length (body_bytes rsn) ≤ 42
unfolding body_bytes cipher_selector akm_selector u32_bytes
length-body_bytes rsn h = omega (arith, length-tail_bytes rsn.pmkid rsn.group_mgmt h)

-- With a PMKID of sixteen octets or none, the element is built, without a panic, and has at most 44
-- octets; its second octet is the number of those that follow.
pub length-encode :
    (rsn : StationRsn)
    → IsPmkid rsn.pmkid
    → (body : List ℕ) × (encode rsn ≡ some (eid_rsn ∷ length body ∷ body))
      × (length (eid_rsn ∷ length body ∷ body) ≤ 44)
unfolding encode
length-encode rsn h =
    let short : length (body_bytes rsn) ≤ 42 = length-body_bytes rsn h in
    (
      body_bytes rsn,
      (rw (le→not_ltb 255 (length (body_bytes rsn)) (omega arith)) refl),
      omega arith,
    )
