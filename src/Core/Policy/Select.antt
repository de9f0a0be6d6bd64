-- ===== src/Core/Policy/Select.antt =====
-- Which BSS to join (crates/caw-core/src/policy.rs, `best_bss`, `best_known`, `roam_target`,
-- `choose_pairwise`).
use caw.Prelude.{ℕ, Bool, not, ◌&&◌, List, [], ◌∷◌, Option, none, some, if◌then◌else◌, find}
use caw.Prelude.Words.{bytes_eq}
use caw.Prelude.Ints.{ℤ, int_leb, saturating_add}
use caw.Wifi.Suites.{Cipher, ccmp128, gcmp128, contains_cipher, RsnIe}
use caw.Wifi.Nl80211.{Bss}
use caw.Core.Profile.{Profile}

abbrev pub filter : {A : Type 0} → (A → Bool) → List A → List A
filter p [] = []
filter p (x ∷ xs) = if p x then x ∷ filter p xs else filter p xs

-- The last of the greatest, after `best`.
abbrev pub max_from : {A : Type 0} → (A → ℤ) → A → List A → A
max_from key best [] = best
max_from key best (x ∷ xs) = max_from key (if int_leb (key best) (key x) then x else best) xs

-- `Iterator::max_by_key`
abbrev pub max_by_key : {A : Type 0} → (A → ℤ) → List A → Option A
max_by_key key [] = none
max_by_key key (x ∷ xs) = some (max_from key x xs)

abbrev pub roam_margin_db : ℕ
roam_margin_db = 8

unfoldable pub best_bss : List Bss → List ℕ → Option Bss
best_bss scan ssid = max_by_key (λ b. b.signal_dbm) (filter (λ b. bytes_eq b.ssid ssid) scan)

-- The first profile that connects by itself and names the BSS's network.
unfoldable pub profile_for : List Profile → Bss → Option Profile
profile_for profiles bss = find (λ p. p.autoconnect && bytes_eq p.ssid bss.ssid) profiles

unfoldable pub known : List Bss → List Profile → List (Bss × Profile)
known [] profiles = []
known (bss ∷ scan) profiles = elim (profile_for profiles bss) [
  | none ↦ known scan profiles
  | some p ↦ (bss, p) ∷ known scan profiles
]

unfoldable pub best_known : List Bss → List Profile → Option (Bss × Profile)
best_known scan profiles = max_by_key (λ pair. pair.0.signal_dbm) (known scan profiles)

-- The test of `roam_target`.
unfoldable pub is_candidate : List ℕ → List ℕ → ℤ → Bss → Bool
is_candidate ssid current signal b =
    let floor = saturating_add signal roam_margin_db in
    bytes_eq b.ssid ssid && (not (bytes_eq b.bssid current) && int_leb floor b.signal_dbm)

unfoldable pub roam_target : List Bss → List ℕ → List ℕ → ℤ → Option Bss
roam_target scan ssid current current_signal =
    max_by_key (λ b. b.signal_dbm) (filter (is_candidate ssid current current_signal) scan)

unfoldable pub choose_pairwise : RsnIe → Option Cipher
choose_pairwise rsn = find (λ c. contains_cipher rsn.pairwise_ciphers c) (ccmp128 ∷ gcmp128 ∷ [])
