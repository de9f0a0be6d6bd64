-- ===== src/Crypto/Mic.antt =====
-- The EAPOL-Key MIC (crates/caw-crypto/src/mic.rs) over the HMAC and the CMAC of other packages.
use caw.Prelude.{ℕ, List, ◌==◌, if◌then◌else◌, Result, ok, err, length, take, bit_and}
use caw.Prelude.Words.{bytes_eq}
use caw.Wifi.Suites.{Akm, is_sae}
use caw.Crypto.{CryptoError, mic_mismatch, bad_input, unsupported_version}

-- A key, then the message.
pub record Macs : Type 0 where
  pub hmac_sha1 : List ℕ → List ℕ → List ℕ
  pub aes_cmac : List ℕ → List ℕ → List ℕ

abbrev pub mic_len : ℕ
mic_len = 16

pub data KeyDescriptorVersion : Type 0 where
  hmac_sha1_version aes_cmac_version akm_defined_cmac : KeyDescriptorVersion

unfoldable pub from_key_info : ℕ → Result KeyDescriptorVersion CryptoError
from_key_info key_info =
    let version = bit_and key_info 7 in
    if version == 2
    then ok hmac_sha1_version
    else if version == 3
    then ok aes_cmac_version
    else err unsupported_version

unfoldable pub from_key_info_for : ℕ → Akm → Result KeyDescriptorVersion CryptoError
from_key_info_for key_info akm =
    if bit_and key_info 7 == 0
    then (if is_sae akm then ok akm_defined_cmac else from_key_info key_info)
    else from_key_info key_info

unfoldable pub version_bits : KeyDescriptorVersion → ℕ
version_bits hmac_sha1_version = 2
version_bits aes_cmac_version = 3
version_bits akm_defined_cmac = 0

unfoldable pub compute_mic : Macs → List ℕ → KeyDescriptorVersion → List ℕ → List ℕ
compute_mic macs kck hmac_sha1_version frame = take mic_len (macs.hmac_sha1 kck frame)
compute_mic macs kck aes_cmac_version frame = macs.aes_cmac kck frame
compute_mic macs kck akm_defined_cmac frame = macs.aes_cmac kck frame

unfoldable pub verify_mic :
    Macs → List ℕ → KeyDescriptorVersion → List ℕ → List ℕ → Result (Unit {0}) CryptoError
verify_mic macs kck version frame mic =
    if length mic == mic_len
    then (if bytes_eq (compute_mic macs kck version frame) mic then ok tt else err mic_mismatch)
    else err bad_input
