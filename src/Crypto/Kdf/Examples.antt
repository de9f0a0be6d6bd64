-- ===== src/Crypto/Kdf/Examples.antt =====
-- The keys of two ends, with a toy HMAC (crates/caw-crypto/src/kdf.rs).
use caw.Prelude.{◌++◌, ◌≡◌, replicate, take}
use caw.Wifi.Suites.{psk}
use caw.Crypto.Kdf.{Hmacs, derive_ptk}
use caw.Crypto.Kdf.Symmetry.{derive_ptk_comm}

abbrev macs : Hmacs
macs = record {
  sha1 = λ key message. take 20 (key ++ (message ++ replicate 20 0));
  sha256 = λ key message. take 32 (message ++ (key ++ replicate 32 0));
}

derive_ptk_comm_example :
    derive_ptk macs
      (replicate 32 7)
      psk
      (replicate 6 4)
      (replicate 6 2)
      (replicate 32 1)
      (replicate 32 5)
    ≡ derive_ptk macs
        (replicate 32 7)
        psk
        (replicate 6 2)
        (replicate 6 4)
        (replicate 32 5)
        (replicate 32 1)
derive_ptk_comm_example =
    derive_ptk_comm macs (replicate 32 7) psk (replicate 6 4) (replicate 6 2) (replicate 32 1)
      (replicate 32 5)
