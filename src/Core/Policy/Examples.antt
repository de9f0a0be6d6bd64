-- ===== src/Core/Policy/Examples.antt =====
-- A network in transition, joined with a passphrase (crates/caw-core/src/policy.rs).
use caw.Prelude.{ℕ, ◌≡◌, refl, true, false, List, [], ◌∷◌, none, some}
use caw.Prelude.Ints.{ℤ, negsuc}
use caw.Wifi.Nl80211.{Bss}
use caw.Core.Policy.Select.{is_candidate, roam_target}
use caw.Core.Policy.Greatest.{Picks}
use caw.Core.Policy.Strongest.{roam_target-strongest}
use caw.Wifi.Suites.{
  RsnIe, psk, sae, ft_psk, ccmp128, from_akms, wpa2_personal, wpa2_wpa3_personal, is_psk, is_sae,
  is_enterprise,
}
use caw.Core.Policy.{
  passphrase, choose_akm, is_usable, satisfies, runnable, is_at_least, negotiated_security,
  security_floor,
}
use caw.Core.Policy.Choice.{Prefers, choose_akm_lem, choose_akm-clears_floor}

abbrev transition : RsnIe
transition = record {
  version = 1;
  group_cipher = ccmp128;
  pairwise_ciphers = ccmp128 ∷ [];
  akms = psk ∷ ft_psk ∷ sae ∷ [];
  capabilities = 0x80;
  mfp_capable = true;
  mfp_required = false;
  group_mgmt_cipher = none;
  raw = [];
}

abbrev secret : List ℕ
secret = 112 ∷ 97 ∷ 115 ∷ 115 ∷ []

chooses_sae : choose_akm false transition (some (passphrase secret)) ≡ some sae
unfolding choose_akm is_usable satisfies runnable is_psk is_sae
chooses_sae = refl

choose_akm_lem_example : Prefers false transition (some (passphrase secret)) (some sae) psk
unfolding choose_akm is_usable satisfies runnable is_psk is_sae
choose_akm_lem_example = choose_akm_lem false transition (some (passphrase secret)) psk

choose_akm-clears_floor_example :
    is_at_least (negotiated_security sae false) (security_floor wpa2_wpa3_personal) ≡ true
unfolding from_akms is_enterprise is_psk is_sae
choose_akm-clears_floor_example =
    choose_akm-clears_floor false transition secret sae wpa2_wpa3_personal chooses_sae refl refl

abbrev bss_of : ℕ → ℤ → Bss
bss_of n signal = record {
  bssid = n ∷ [];
  ssid = 72 ∷ [];
  freq_mhz = 2412;
  signal_dbm = signal;
  last_seen_ms = 10;
  capability = 1;
  security = wpa2_personal;
  rsn = none;
}

abbrev scan : List Bss
scan = bss_of 1 (negsuc 69) ∷ bss_of 2 (negsuc 54) ∷ bss_of 3 (negsuc 49) ∷ []

roams_to_strongest : roam_target scan (72 ∷ []) (1 ∷ []) (negsuc 69) ≡ some (bss_of 3 (negsuc 49))
unfolding roam_target is_candidate
roams_to_strongest = refl

-- The strongest of the scan is the third.
roam_target-strongest_example :
    Picks
      (is_candidate (72 ∷ []) (1 ∷ []) (negsuc 69))
      (λ b. b.signal_dbm)
      scan
      (some (bss_of 3 (negsuc 49)))
unfolding roam_target is_candidate
roam_target-strongest_example = roam_target-strongest scan (72 ∷ []) (1 ∷ []) (negsuc 69)
