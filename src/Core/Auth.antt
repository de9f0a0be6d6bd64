-- ===== src/Core/Auth.antt =====
-- Choosing who derives the PMK (crates/caw-core/src/auth.rs). The PMK providers of the other crates
-- are an interface.
use caw.Prelude.{ℕ, Bool, List, Option, if◌then◌else◌, Result, ok, err}
use caw.Wifi.Suites.{Akm, is_sae, is_psk, is_enterprise}
use caw.Crypto.{
  CryptoError, Step, send_step, wait_step, done_step, AuthContext, AuthStage, local_stage,
  pre_assoc_stage, post_assoc_stage,
}
use caw.Eap.Error.{Error}
use caw.Eapol.FourWay.{Primitives}
use caw.Core.Policy.{EnterpriseMethod, Credential, no_credential, passphrase, enterprise}
use caw.Core.Failure.{
  Failure, unsupported_security, internal, local_provider_waits, wrong_stage, from_crypto,
}

pub record DeviceCaps : Type 0 where
  pub offloads_4way_psk : Bool
  pub offloads_4way_1x : Bool
  pub offloads_sae : Bool

pub data Offload : Type 0 where
  pmk_offload : List ℕ → Offload
  sae_password : List ℕ → Offload

pub data SaeEvent : Type 0 where
  sae_start : SaeEvent
  sae_frame : List ℕ → SaeEvent
  sae_timeout : SaeEvent

-- `Draw` is what the system gives one call: random octets, and files. `SaeProvider` and the 802.1X
-- providers answer an event with their next state; `psk_start` is `PskProvider::start`,
-- `random_nonce` the handshake's nonce, and `enterprise_provider` takes a credential's fields.
pub record Providers : Type 1 where
  pub Draw : Type 0
  pub Sae : Type 0
  pub Dot1x : Type 0
  pub has_enterprise : Bool
  pub primitives : Primitives
  pub random_nonce : Draw → Result (List ℕ) Error
  pub psk_start : List ℕ → AuthContext → Result Step CryptoError
  pub sae_new : List ℕ → Sae
  pub sae_step : Draw → AuthContext → SaeEvent → Sae → Sae × Result Step CryptoError
  pub sae_pmkid : Sae → Option (List ℕ)
  pub enterprise_provider :
      Draw
      → List ℕ
      → Option (List ℕ)
      → Option (List ℕ)
      → EnterpriseMethod
      → Option (List ℕ)
      → Result Dot1x Failure
  pub dot1x_stage : Dot1x → AuthStage
  pub dot1x_start : Draw → AuthContext → Dot1x → Dot1x × Result Step CryptoError
  pub dot1x_on_frame : Draw → AuthContext → List ℕ → Dot1x → Dot1x × Result Step CryptoError

pub data Auth (P : Providers) : Type 0 where
  open_auth : Auth P
  offloaded : Offload → Auth P
  pre_assoc : P.Sae → Auth P
  post_assoc : P.Dot1x → Auth P
  ready : List ℕ → Auth P
  running : Auth P

module _ (P : Providers) where
  unfoldable pub by_psk : DeviceCaps → Result Step CryptoError → Result (Auth P) Failure
  by_psk caps (ok (done_step pmk)) =
      ok (if caps.offloads_4way_psk then offloaded (pmk_offload pmk) else ready pmk)
  by_psk caps (ok (send_step frame)) = err (internal local_provider_waits)
  by_psk caps (ok wait_step) = err (internal local_provider_waits)
  by_psk caps (err e) = err (from_crypto e)

  unfoldable pub by_stage : P.Dot1x → AuthStage → Result (Auth P) Failure
  by_stage provider post_assoc_stage = ok (post_assoc provider)
  by_stage provider local_stage = err (internal wrong_stage)
  by_stage provider pre_assoc_stage = err (internal wrong_stage)

  unfoldable pub by_provider : Result P.Dot1x Failure → Result (Auth P) Failure
  by_provider (ok provider) = by_stage provider (P.dot1x_stage provider)
  by_provider (err failure) = err failure

  unfoldable pub assemble :
      P.Draw → Akm → Credential → DeviceCaps → AuthContext → Result (Auth P) Failure
  assemble draw akm no_credential caps ctx = ok open_auth
  assemble draw akm (passphrase secret) caps ctx =
      if is_sae akm
      then (if caps.offloads_sae
          then ok (offloaded (sae_password secret))
          else ok (pre_assoc (P.sae_new secret)))
      else if is_psk akm
      then by_psk caps (P.psk_start secret ctx)
      else err unsupported_security
  assemble draw akm (enterprise identity anonymous server_name method ca) caps ctx =
      if is_enterprise akm
      then by_provider (P.enterprise_provider draw identity anonymous server_name method ca)
      else err unsupported_security
