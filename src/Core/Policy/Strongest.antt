-- ===== src/Core/Policy/Strongest.antt =====
-- The BSS that is picked (crates/caw-core/src/policy.rs, `best_bss`, `roam_target`).
use caw.Prelude.{ℕ, true, List, ◌≡◌, some}
use caw.Prelude.Words.{bytes_eq}
use caw.Prelude.Ints.{ℤ, int_leb}
use caw.Wifi.Nl80211.{Bss}
use caw.Core.Policy.Greatest.{IsMember, max_by_key-filter, Picks, max_by_key-Picks}
use caw.Core.Policy.Select.{best_bss, is_candidate, roam_target}

-- The BSS that is picked for a network is one that the scan saw and carries its name, and no BSS of
-- the scan with that name has a stronger signal.
pub best_bss-strongest :
    (scan : List Bss) (ssid : List ℕ) (top other : Bss)
    → best_bss scan ssid ≡ some top
    → IsMember other scan
    → bytes_eq other.ssid ssid ≡ true
    → IsMember top scan
      × ((bytes_eq top.ssid ssid ≡ true) × (int_leb other.signal_dbm top.signal_dbm ≡ true))
unfolding best_bss
best_bss-strongest scan ssid top other e listed named =
    max_by_key-filter (λ b. bytes_eq b.ssid ssid) (λ b. b.signal_dbm) scan top other e listed named

-- The target of a roam is a BSS that the scan saw, of the same network, not the current one and
-- stronger by the margin, and no BSS of the scan with these three properties has a stronger signal;
-- where there is no target, no BSS of the scan has them.
pub roam_target-strongest :
    (scan : List Bss) (ssid current : List ℕ) (signal : ℤ)
    → Picks
        (is_candidate ssid current signal)
        (λ b. b.signal_dbm)
        scan
        (roam_target scan ssid current signal)
unfolding roam_target
roam_target-strongest scan ssid current signal =
    max_by_key-Picks (is_candidate ssid current signal) (λ b. b.signal_dbm) scan
