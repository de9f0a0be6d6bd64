-- ===== src/Crypto.antt =====
-- What crates/caw-crypto gives the other crates: its errors, its keys, and the descriptor versions
-- of src/mic.rs. The ciphers and hashes under it belong to other packages.
pub mod Mic
pub mod Kdf
pub mod Sae
use caw.Prelude.{ℕ, List}
use caw.Wifi.Suites.{Akm}

pub data CryptoError : Type 0 where
  mic_mismatch bad_input unsupported_akm auth_failed unsupported_version key_unwrap_failed
        protocol :
      CryptoError

-- A `Pmk` is its bytes.
pub record Ptk : Type 0 where
  pub kck : List ℕ
  pub kek : List ℕ
  pub tk : List ℕ

pub data AuthStage : Type 0 where
  local_stage pre_assoc_stage post_assoc_stage : AuthStage

pub data Step : Type 0 where
  send_step : List ℕ → Step
  wait_step : Step
  done_step : List ℕ → Step

pub record AuthContext : Type 0 where
  pub ssid : List ℕ
  pub bssid : List ℕ
  pub own_mac : List ℕ
  pub akm : Akm
