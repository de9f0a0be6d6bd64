-- ===== src/Core/Policy.antt =====
-- Which suites to join with, and when to refuse (crates/caw-core/src/policy.rs). `enterprise` is
-- whether the build has that feature.
pub mod Choice
pub mod Select
mod Greatest
pub mod Strongest
mod Examples
use caw.Prelude.{
  ℕ, Bool, true, false, ◌&&◌, ◌||◌, List, [], ◌∷◌, ◌==◌, leb, if◌then◌else◌, Option, none, some,
  find,
}
use caw.Wifi.Suites.{
  Akm, psk, psk_sha256, sae, dot1x, dot1x_sha256, owe, dot1x_suite_b192, is_psk, is_sae,
  is_enterprise, akm_eq, contains_akm, RsnIe, Security, open_network, wep, wpa1_personal,
  wpa1_enterprise, wpa2_personal, wpa3_personal, wpa2_wpa3_personal, wpa2_enterprise,
  wpa3_enterprise, owe_network,
}

pub data EnterpriseMethod : Type 0 where
  peap : List ℕ → EnterpriseMethod
  ttls : List ℕ → EnterpriseMethod
  tls : List ℕ → List ℕ → EnterpriseMethod

-- Secrets, names and paths are their bytes. `enterprise` holds the identity, the anonymous identity,
-- the server's name, the method and the CA certificate.
pub data Credential : Type 0 where
  no_credential : Credential
  passphrase : List ℕ → Credential
  enterprise :
      List ℕ → Option (List ℕ) → Option (List ℕ) → EnterpriseMethod → Option (List ℕ) → Credential

unfoldable pub strength : Security → ℕ
strength open_network = 0
strength wep = 1
strength wpa1_personal = 2
strength wpa1_enterprise = 2
strength owe_network = 3
strength wpa2_personal = 4
strength wpa2_enterprise = 4
strength wpa2_wpa3_personal = 5
strength wpa3_personal = 6
strength wpa3_enterprise = 6

unfoldable pub is_at_least : Security → Security → Bool
is_at_least offered floor = leb (strength floor) (strength offered)

unfoldable pub security_floor : Security → Security
security_floor wpa2_wpa3_personal = wpa2_personal
security_floor observed = observed

unfoldable pub satisfies : Akm → Option Credential → Bool
satisfies akm none = true
satisfies akm (some no_credential) = false
satisfies akm (some (passphrase secret)) = is_psk akm || is_sae akm
satisfies akm (some (enterprise identity anonymous server_name method ca)) = is_enterprise akm

unfoldable pub runnable : Bool → Akm → Bool
runnable has_enterprise psk = true
runnable has_enterprise psk_sha256 = true
runnable has_enterprise sae = true
runnable has_enterprise dot1x = has_enterprise
runnable has_enterprise dot1x_sha256 = has_enterprise
runnable has_enterprise akm = false

abbrev pub akm_preference : List Akm
akm_preference = sae ∷ dot1x_sha256 ∷ psk_sha256 ∷ dot1x ∷ psk ∷ []

unfoldable pub is_usable : Bool → RsnIe → Option Credential → Akm → Bool
is_usable has_enterprise rsn credential akm =
    contains_akm rsn.akms akm && (satisfies akm credential && runnable has_enterprise akm)

unfoldable pub choose_akm : Bool → RsnIe → Option Credential → Option Akm
choose_akm has_enterprise rsn credential =
    find (λ akm. is_usable has_enterprise rsn credential akm) akm_preference

unfoldable pub negotiated_security : Akm → Bool → Security
negotiated_security akm mfp_required =
    if is_sae akm
    then wpa3_personal
    else if is_psk akm
    then wpa2_personal
    else if akm_eq akm owe
    then owe_network
    else if is_enterprise akm
    then (if mfp_required || akm_eq akm dot1x_suite_b192 then wpa3_enterprise else wpa2_enterprise)
    else open_network
