-- ===== src/Wifi/Suites.antt =====
-- Cipher and key-management suites (crates/caw-80211/src/lib.rs).
use caw.Prelude.{
  ℕ, Bool, true, false, not, ◌&&◌, ◌||◌, List, [], ◌∷◌, ◌==◌, if◌then◌else◌, Option, none, some,
}

-- Three bytes of an OUI, then the suite's type.
pub record Selector : Type 0 where
  pub o0 : ℕ
  pub o1 : ℕ
  pub o2 : ℕ
  pub kind : ℕ

pub data Cipher : Type 0 where
  use_group wep40 tkip ccmp128 wep104 bip_cmac128 gcmp128 gcmp256 ccmp256 : Cipher
  unknown_cipher : Selector → Cipher

pub data Akm : Type 0 where
  psk psk_sha256 sae dot1x dot1x_sha256 owe ft_psk ft_sae ft_dot1x dot1x_suite_b192 : Akm
  unknown_akm : Selector → Akm

pub data Security : Type 0 where
  open_network wep wpa1_personal wpa1_enterprise wpa2_personal wpa3_personal wpa2_wpa3_personal
        wpa2_enterprise wpa3_enterprise owe_network :
      Security

abbrev is_oui : ℕ → ℕ → ℕ → Selector → Bool
is_oui a b c sel = sel.o0 == a && (sel.o1 == b && sel.o2 == c)

-- The IEEE's OUI, or Microsoft's.
unfoldable pub is_known_oui : Selector → Bool
is_known_oui sel = is_oui 0x00 0x0f 0xac sel || is_oui 0x00 0x50 0xf2 sel

unfoldable pub cipher_from_selector : Selector → Cipher
cipher_from_selector sel =
    if not (is_known_oui sel)
    then unknown_cipher sel
    else if sel.kind == 0
    then use_group
    else if sel.kind == 1
    then wep40
    else if sel.kind == 2
    then tkip
    else if sel.kind == 4
    then ccmp128
    else if sel.kind == 5
    then wep104
    else if sel.kind == 6
    then bip_cmac128
    else if sel.kind == 8
    then gcmp128
    else if sel.kind == 9
    then gcmp256
    else if sel.kind == 10
    then ccmp256
    else unknown_cipher sel

unfoldable pub akm_from_selector : Selector → Akm
akm_from_selector sel =
    if not (is_known_oui sel)
    then unknown_akm sel
    else if sel.kind == 1
    then dot1x
    else if sel.kind == 2
    then psk
    else if sel.kind == 3
    then ft_dot1x
    else if sel.kind == 4
    then ft_psk
    else if sel.kind == 5
    then dot1x_sha256
    else if sel.kind == 6
    then psk_sha256
    else if sel.kind == 8
    then sae
    else if sel.kind == 9
    then ft_sae
    else if sel.kind == 12
    then dot1x_suite_b192
    else if sel.kind == 18
    then owe
    else unknown_akm sel

unfoldable pub is_psk : Akm → Bool
is_psk psk = true
is_psk psk_sha256 = true
is_psk ft_psk = true
is_psk _ = false

unfoldable pub is_sae : Akm → Bool
is_sae sae = true
is_sae ft_sae = true
is_sae _ = false

unfoldable pub is_enterprise : Akm → Bool
is_enterprise dot1x = true
is_enterprise dot1x_sha256 = true
is_enterprise ft_dot1x = true
is_enterprise dot1x_suite_b192 = true
is_enterprise _ = false

pub record RsnIe : Type 0 where
  pub version : ℕ
  pub group_cipher : Cipher
  pub pairwise_ciphers : List Cipher
  pub akms : List Akm
  pub capabilities : ℕ
  pub mfp_capable : Bool
  pub mfp_required : Bool
  pub group_mgmt_cipher : Option Cipher
  pub raw : List ℕ

-- The derived equality: the constructor, and an unknown suite's selector.
abbrev pub akm_tag : Akm → ℕ
akm_tag psk = 0
akm_tag psk_sha256 = 1
akm_tag sae = 2
akm_tag dot1x = 3
akm_tag dot1x_sha256 = 4
akm_tag owe = 5
akm_tag ft_psk = 6
akm_tag ft_sae = 7
akm_tag ft_dot1x = 8
akm_tag dot1x_suite_b192 = 9
akm_tag (unknown_akm sel) = 10

abbrev selector_eq : Selector → Selector → Bool
selector_eq a b = a.o0 == b.o0 && (a.o1 == b.o1 && (a.o2 == b.o2 && a.kind == b.kind))

abbrev pub akm_eq : Akm → Akm → Bool
akm_eq (unknown_akm a) (unknown_akm b) = selector_eq a b
akm_eq a b = akm_tag a == akm_tag b

-- `akms.contains(&akm)`
abbrev pub contains_akm : List Akm → Akm → Bool
contains_akm [] akm = false
contains_akm (x ∷ xs) akm = akm_eq x akm || contains_akm xs akm

-- `akms.iter().any(p)`
abbrev pub any_akm : (Akm → Bool) → List Akm → Bool
any_akm p [] = false
any_akm p (x ∷ xs) = p x || any_akm p xs

-- `Security::from_akms`: none where no suite is known.
unfoldable pub from_akms : List Akm → Bool → Option Security
from_akms akms mfp_required =
    if any_akm is_sae akms && any_akm is_psk akms
    then some wpa2_wpa3_personal
    else if any_akm is_sae akms
    then some wpa3_personal
    else if contains_akm akms owe
    then some owe_network
    else if any_akm is_enterprise akms
    then (if mfp_required || contains_akm akms dot1x_suite_b192
        then some wpa3_enterprise
        else some wpa2_enterprise)
    else if any_akm is_psk akms
    then some wpa2_personal
    else none

abbrev cipher_tag : Cipher → ℕ
cipher_tag use_group = 0
cipher_tag wep40 = 1
cipher_tag tkip = 2
cipher_tag ccmp128 = 3
cipher_tag wep104 = 4
cipher_tag bip_cmac128 = 5
cipher_tag gcmp128 = 6
cipher_tag gcmp256 = 7
cipher_tag ccmp256 = 8
cipher_tag (unknown_cipher sel) = 9

abbrev pub cipher_eq : Cipher → Cipher → Bool
cipher_eq (unknown_cipher a) (unknown_cipher b) = selector_eq a b
cipher_eq a b = cipher_tag a == cipher_tag b

-- `pairwise_ciphers.contains(c)`
abbrev pub contains_cipher : List Cipher → Cipher → Bool
contains_cipher [] cipher = false
contains_cipher (x ∷ xs) cipher = cipher_eq x cipher || contains_cipher xs cipher
