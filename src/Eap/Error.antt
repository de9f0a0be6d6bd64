-- ===== src/Eap/Error.antt =====
-- The crate's errors (crates/caw-eapol/src/lib.rs). An error of another package is its
-- number.
use caw.Prelude.{ℕ, List}
use caw.Crypto.{CryptoError}

pub data Error : Type 0 where
  malformed : Error
  crypto : CryptoError → Error
  rejected : Error
  io : ℕ → Error
  unsupported_packet_type : ℕ → Error
  unsupported_eap_code : ℕ → Error
  unsupported_descriptor : ℕ → Error
  unexpected_message : Error
  replayed_counter : Error
  nonce_mismatch : Error
  rsn_missing : Error
  rsn_mismatch : Error
  gtk_missing : Error
  handshake_timeout : Error
  fragment_out_of_order : Error
  fragment_too_large : Error
  premature_success : Error
  tls : ℕ → Error
  no_crypto_provider : Error
  certificate_store : List ℕ → Error
  no_peer : Error
  short_send : Error
