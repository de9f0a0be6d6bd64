-- ===== src/Core/Conn/Negotiate.antt =====
-- What to ask of a BSS (crates/caw-core/src/conn.rs, `evaluate`, `negotiate` and the request of
-- `associate`).
use caw.Prelude.{
  ℕ, ◌+◌, Bool, true, false, ◌&&◌, ◌||◌, List, [], ◌∷◌, ◌++◌, if◌then◌else◌, Option, none, some,
  Result, ok, err, ◌>>=◌, ok_or,
}
use caw.Wifi.Suites.{Akm, is_sae, Cipher, RsnIe, Security, open_network}
use caw.Wifi.Nl80211.{
  Bss, cipher_suite, akm_suite, authtype_open_system, authtype_sae, wpa_version_2, wpa_version_3,
  mfp_no, mfp_required_value, mfp_optional,
}
use caw.Core.Policy.{Credential, choose_akm, negotiated_security}
use caw.Core.Policy.Select.{choose_pairwise}
use caw.Core.Profile.{Profile, accepts}
use caw.Core.Rsn.{encode}
use caw.Core.Failure.{Failure, unsupported_security, downgrade}
use caw.Core.Auth.{Providers, Offload}
use caw.Core.Conn.{AssocRequest, Negotiated, Choice, Connection}
use caw.Core.Conn.Transition.{profile_in}

-- Hash-to-Element, in the RSN extension element.
abbrev pub rsnxe_sae_h2e : List ℕ
rsnxe_sae_h2e = 244 ∷ 1 ∷ 32 ∷ []

abbrev pub mgmt_header_len : ℕ
mgmt_header_len = 24

abbrev pub fc_auth : ℕ
fc_auth = 0xb0

unfoldable pub negotiated_of : RsnIe → Akm → Cipher → Negotiated
negotiated_of rsn akm pairwise =
    let mfp_required = rsn.mfp_required || is_sae akm in
    record {
      akm = akm;
      pairwise = pairwise;
      group = rsn.group_cipher;
      group_mgmt = rsn.group_mgmt_cipher;
      mfp_capable = rsn.mfp_capable || mfp_required;
      mfp_required = mfp_required;
      beacon_ie = rsn.raw;
    }

unfoldable pub negotiate : Bool → RsnIe → Option Credential → Result Negotiated Failure
negotiate has_enterprise rsn credential = do
  akm ← ok_or (choose_akm has_enterprise rsn credential) unsupported_security
  pairwise ← ok_or (choose_pairwise rsn) unsupported_security
  ok (negotiated_of rsn akm pairwise)

abbrev is_open : Security → Bool
is_open open_network = true
is_open _ = false

unfoldable pub suites_of : Bool → Bss → Option Credential → Result (Option Negotiated) Failure
suites_of has_enterprise bss credential = elim bss.rsn [
  | none ↦ if is_open bss.security then ok none else err unsupported_security
  | some rsn ↦ negotiate has_enterprise rsn credential >>= λ n. ok (some n)
]

unfoldable pub security_of : Option Negotiated → Security
security_of none = open_network
security_of (some n) = negotiated_security n.akm n.mfp_required

-- The downgrade check.
unfoldable pub check_floor : Option Profile → Security → Result (Unit {0}) Failure
check_floor none negotiated = ok tt
check_floor (some profile) negotiated =
    if accepts profile negotiated then ok tt else err (downgrade profile.min_security negotiated)

unfoldable pub choice_of : Bss → Option Negotiated → Bool → Choice
choice_of bss rsn roaming = record {
  bssid = bss.bssid;
  freq_mhz = bss.freq_mhz;
  signal_dbm = bss.signal_dbm;
  advertised = bss.security;
  negotiated = security_of rsn;
  rsn = rsn;
  roaming = roaming;
}

-- The element as sent: after SAE run here, the RSN extension follows it.
unfoldable pub element_of : Option (List ℕ) → Negotiated → Option (List ℕ)
element_of pmkid rsn = encode (record {
  group = rsn.group;
  pairwise = rsn.pairwise;
  akm = rsn.akm;
  mfp_capable = rsn.mfp_capable;
  mfp_required = rsn.mfp_required;
  pmkid = pmkid;
  group_mgmt = if rsn.mfp_capable then rsn.group_mgmt else none;
})

abbrev pub is_none : Option Offload → Bool
is_none none = true
is_none (some o) = false

abbrev as_list : Option ℕ → List ℕ
as_list none = []
as_list (some n) = n ∷ []

unfoldable pub mfp_of : Negotiated → ℕ
mfp_of rsn =
    if rsn.mfp_required
    then mfp_required_value
    else if rsn.mfp_capable
    then mfp_optional
    else mfp_no

unfoldable pub open_request : ℕ → List ℕ → Choice → Option Offload → AssocRequest
open_request ifindex ssid choice offload = record {
  ifindex = ifindex;
  ssid = ssid;
  bssid = choice.bssid;
  freq_mhz = choice.freq_mhz;
  auth_type = authtype_open_system;
  wpa_versions = 0;
  pairwise_ciphers = [];
  group_cipher = none;
  akms = [];
  mfp = none;
  ies = [];
  offload = offload;
  authenticated = false;
}

unfoldable pub secured_request : AssocRequest → Negotiated → List ℕ → AssocRequest
secured_request request rsn element =
    let runs_sae = is_sae rsn.akm && is_none request.offload in
    record request {
      auth_type = if is_sae rsn.akm then authtype_sae else authtype_open_system;
      wpa_versions = if is_sae rsn.akm then wpa_version_2 + wpa_version_3 else wpa_version_2;
      pairwise_ciphers = as_list (cipher_suite rsn.pairwise);
      group_cipher = cipher_suite rsn.group;
      akms = akm_suite rsn.akm ∷ [];
      mfp = some (mfp_of rsn);
      authenticated = runs_sae;
      ies = if runs_sae then element ++ rsnxe_sae_h2e else element;
    }

module _ (P : Providers) where
  unfoldable pub evaluate : Connection P → Bss → Option Credential → Bool → Result Choice Failure
  evaluate c bss credential roaming = do
    rsn ← suites_of P.has_enterprise bss credential
    check_floor (profile_in P c.profiles c.target) (security_of rsn) >>= λ _.
        ok (choice_of bss rsn roaming)
