-- ===== src/Core/Profile.antt =====
-- A saved network (crates/caw-core/src/profile.rs, `Profile`).
pub mod FileName
use caw.Prelude.{ℕ, Bool, true, false, List}
use caw.Wifi.Suites.{Security}
use caw.Core.Policy.{Credential, no_credential, is_at_least, security_floor}

pub record Profile : Type 0 where
  pub ssid : List ℕ
  pub security : Security
  pub credential : Credential
  pub autoconnect : Bool
  pub min_security : Security

abbrev has_credential : Credential → Bool
has_credential no_credential = false
has_credential _ = true

unfoldable pub new : List ℕ → Security → Credential → Profile
new ssid security credential = record {
  ssid = ssid;
  security = security;
  credential = credential;
  autoconnect = has_credential credential;
  min_security = security_floor security;
}

unfoldable pub accepts : Profile → Security → Bool
accepts p offered = is_at_least offered p.min_security
