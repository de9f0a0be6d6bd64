-- ===== src/Core/Conn/Address.antt =====
-- Address configuration (crates/caw-core/src/conn.rs, `on_lease`, `save_profile`).
use caw.Prelude.{ℕ, true, false, List, [], ◌∷◌, if◌then◌else◌, Option, none, some}
use caw.Core.Policy.{no_credential, passphrase, Credential}
use caw.Core.Profile
use caw.Core.Profile.{Profile}
use caw.Core.Failure.{dhcp}
use caw.Core.Auth.{Providers}
use caw.Core.Conn.{
  configuring, connected, LeaseEvent, acquired, lease_lost, lease_failed, start_dhcp, apply_lease,
  save_profile_action, Target, Negotiated, Session, Connection, insert_profile,
}
use caw.Core.Conn.Transition.{Turn, then_do, emit, enter, fail}
use caw.Core.Conn.Handshake.{reset_attempts}

module _ (P : Providers) where
  abbrev pub credential_to_save : Option Negotiated → Option (List ℕ) → Option Credential
  credential_to_save none secret = some no_credential
  credential_to_save (some rsn) none = none
  credential_to_save (some rsn) (some secret) = some (passphrase secret)

  unfoldable pub saving : Connection P → Target → Session P → Option Credential → Turn P
  saving c target session none = (c, [])
  saving c target session (some credential) =
      let fresh = Profile.new target.ssid session.choice.advertised credential in
      let profile : Profile = record fresh { autoconnect = true } in
      let saved : Target = record target { save = false } in
      (
        insert_profile P (record c { target = some saved }) profile,
        save_profile_action profile ∷ [],
      )

  unfoldable pub save_profile : Connection P → Turn P
  save_profile c = elim c.target [
    | none ↦ (c, [])
    | some target ↦
        if target.save
        then elim c.session [
          | none ↦ (c, [])
          | some session ↦
              saving c target session (credential_to_save session.choice.rsn target.secret)
        ]
        else (c, [])
  ]

  unfoldable pub on_lease : LeaseEvent → Connection P → Turn P
  on_lease (acquired lease) c =
      then_do P
        (then_do P (then_do P (emit P (apply_lease lease) c) (enter P connected))
          (reset_attempts P))
        save_profile
  on_lease (lease_lost reason) c = elim c.state [
    | connected ↦ then_do P (enter P configuring c) (emit P start_dhcp)
    | _ ↦ (c, [])
  ]
  on_lease lease_failed c = fail P dhcp c
