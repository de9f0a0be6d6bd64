-- ===== src/Core/Failure.antt =====
-- Why an attempt ended (crates/caw-core/src/conn.rs, `Failure`). A message that prints another
-- error is that error.
use caw.Prelude.{ℕ, Bool, true, false, List}
use caw.Wifi.Suites.{Security}
use caw.Crypto
use caw.Crypto.{CryptoError, mic_mismatch, key_unwrap_failed}
use caw.Eap.Error.{Error, crypto, rejected, premature_success}

-- What `Failure::Internal` says.
pub data InternalError : Type 0 where
  frame_without_body no_authentication_staged local_provider_waits wrong_stage : InternalError

pub data Failure : Type 0 where
  not_found no_known_network : Failure
  downgrade : Security → Security → Failure
  unsupported_security missing_credential : Failure
  refused : ℕ → Failure
  assoc_timed_out wrong_credential rsn_differs authentication_failed : Failure
  handshake_crypto : CryptoError → Failure
  handshake_eapol : Error → Failure
  disconnected : ℕ → Bool → Failure
  dhcp : Failure
  enterprise_failure : List ℕ → Failure
  internal : InternalError → Failure

unfoldable pub is_terminal : Failure → Bool
is_terminal (downgrade recorded offered) = true
is_terminal unsupported_security = true
is_terminal missing_credential = true
is_terminal wrong_credential = true
is_terminal rsn_differs = true
is_terminal authentication_failed = true
is_terminal (enterprise_failure why) = true
is_terminal (internal why) = true
is_terminal _ = false

unfoldable pub is_disconnected : Failure → Bool
is_disconnected (disconnected reason by_ap) = true
is_disconnected _ = false

unfoldable pub from_crypto : CryptoError → Failure
from_crypto mic_mismatch = wrong_credential
from_crypto key_unwrap_failed = wrong_credential
from_crypto Crypto.auth_failed = authentication_failed
from_crypto other = handshake_crypto other

unfoldable pub from_eapol : Error → Failure
from_eapol (crypto inner) = from_crypto inner
from_eapol Error.rsn_mismatch = rsn_differs
from_eapol rejected = authentication_failed
from_eapol premature_success = authentication_failed
from_eapol other = handshake_eapol other
