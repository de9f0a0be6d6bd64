-- ===== src/Wifi/Nl80211.antt =====
-- What the kernel's wireless stack reports and is asked (crates/caw-nl80211/src/bss.rs, event.rs,
-- consts.rs).
use caw.Prelude.{ℕ, ◌+◌, ◌*◌, Bool, List, Option, none, some}
use caw.Prelude.Ints.{ℤ}
use caw.Wifi.Suites.{
  Selector, Cipher, use_group, wep40, tkip, ccmp128, wep104, bip_cmac128, gcmp128, gcmp256, ccmp256,
  unknown_cipher, Akm, psk, psk_sha256, sae, dot1x, dot1x_sha256, owe, ft_psk, ft_sae, ft_dot1x,
  dot1x_suite_b192, unknown_akm, Security, RsnIe,
}

pub record Bss : Type 0 where
  pub bssid : List ℕ
  pub ssid : List ℕ
  pub freq_mhz : ℕ
  pub signal_dbm : ℤ
  pub last_seen_ms : ℕ
  pub capability : ℕ
  pub security : Security
  pub rsn : Option RsnIe

pub data ConnectStatus : Type 0 where
  success : ConnectStatus
  refused_status : ℕ → ConnectStatus
  timed_out : ConnectStatus

pub data Event : Type 0 where
  scan_complete : ℕ → ℕ → Event
  scan_aborted : ℕ → ℕ → Event
  connected_event : Option (List ℕ) → ConnectStatus → Event
  disconnected_event : ℕ → Bool → Event
  external_auth : List ℕ → List ℕ → Bool → Event
  frame_event : List ℕ → Event
  authenticate_event : List ℕ → Event
  auth_timed_out : Event

abbrev pub wpa_version_2 : ℕ
wpa_version_2 = 2

abbrev pub wpa_version_3 : ℕ
wpa_version_3 = 4

abbrev pub authtype_open_system : ℕ
authtype_open_system = 0

abbrev pub authtype_sae : ℕ
authtype_sae = 4

abbrev pub mfp_no : ℕ
mfp_no = 0

abbrev pub mfp_required_value : ℕ
mfp_required_value = 1

abbrev pub mfp_optional : ℕ
mfp_optional = 2

-- A type under the IEEE's OUI, 00-0f-ac.
abbrev pub ieee : ℕ → ℕ
ieee suite_type = 1_027_072 + suite_type

abbrev selector_number : Selector → ℕ
selector_number sel = sel.o0 * 16_777_216 + sel.o1 * 65_536 + sel.o2 * 256 + sel.kind

abbrev pub suite_use_group : ℕ
suite_use_group = ieee 0

abbrev pub suite_ccmp : ℕ
suite_ccmp = ieee 4

unfoldable pub cipher_suite : Cipher → Option ℕ
cipher_suite use_group = none
cipher_suite wep40 = some (ieee 1)
cipher_suite tkip = some (ieee 2)
cipher_suite ccmp128 = some suite_ccmp
cipher_suite wep104 = some (ieee 5)
cipher_suite bip_cmac128 = some (ieee 6)
cipher_suite gcmp128 = some (ieee 8)
cipher_suite gcmp256 = some (ieee 9)
cipher_suite ccmp256 = some (ieee 10)
cipher_suite (unknown_cipher sel) = some (selector_number sel)

unfoldable pub akm_suite : Akm → ℕ
akm_suite dot1x = ieee 1
akm_suite psk = ieee 2
akm_suite ft_dot1x = ieee 3
akm_suite ft_psk = ieee 4
akm_suite dot1x_sha256 = ieee 5
akm_suite psk_sha256 = ieee 6
akm_suite sae = ieee 8
akm_suite ft_sae = ieee 9
akm_suite dot1x_suite_b192 = ieee 12
akm_suite owe = ieee 18
akm_suite (unknown_akm sel) = selector_number sel
