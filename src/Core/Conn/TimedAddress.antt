-- ===== src/Core/Conn/TimedAddress.antt =====
-- The timers of address configuration (crates/caw-core/src/conn.rs, `on_lease`).
use caw.Prelude.{Bool, true, false, [], refl, Option, none, some, if◌then◌else◌}
use caw.Dhcp.Lease.{Lease}
use caw.Core.Policy.{Credential}
use caw.Core.Failure.{dhcp}
use caw.Core.Auth.{Providers}
use caw.Core.Conn.{
  State, configuring, connected, LeaseEvent, acquired, lease_lost, lease_failed, start_dhcp,
  apply_lease, save_profile_action, Target, Session, Connection, insert_profile,
}
use caw.Core.Conn.Transition.{Turn, then_do, emit, enter}
use caw.Core.Conn.Handshake.{reset_attempts}
use caw.Core.Conn.Address.{saving, save_profile, on_lease, credential_to_save}
use caw.Core.Conn.Replay.{IsTimed}
use caw.Core.Conn.Timed.{
  IsTracked, then_do-IsTracked, stay-IsTracked, emit-IsTracked, enter-IsTracked, fail-IsTracked,
}

module _ (P : Providers) where
  saving-IsTracked :
      (c : Connection P) (target : Target) (session : Session P) (credential : Option Credential)
      → IsTimed c.armed c.state
      → IsTracked P c.armed (saving P c target session credential)
  unfolding saving insert_profile
  saving-IsTracked c target session none timed = stay-IsTracked P c timed
  saving-IsTracked c target session (some credential) timed =
      emit-IsTracked P (save_profile_action _) (saving P c target session (some credential)).0 refl
        timed

  save_profile-IsTracked :
      (c : Connection P) → IsTimed c.armed c.state → IsTracked P c.armed (save_profile P c)
  unfolding save_profile
  save_profile-IsTracked c timed = by_target c.target
    where
      by_session :
          (target : Target) (session : Option (Session P))
          → IsTracked P c.armed (elim session [
            | none ↦ (c, [])
            | some session ↦
                saving P c target session (credential_to_save P session.choice.rsn target.secret)
          ])
      by_session target none = stay-IsTracked P c timed
      by_session target (some session) = saving-IsTracked c target session _ timed

      by_save :
          (target : Target) (save : Bool)
          → IsTracked P c.armed (
              if save
              then elim c.session [
                | none ↦ (c, [])
                | some session ↦
                    saving P c target session
                      (credential_to_save P session.choice.rsn target.secret)
              ]
              else (c, []))
      by_save target true = by_session target c.session
      by_save target false = stay-IsTracked P c timed

      by_target :
          (target : Option Target)
          → IsTracked P c.armed (elim target [
            | none ↦ (c, [])
            | some target ↦
                if target.save
                then elim c.session [
                  | none ↦ (c, [])
                  | some session ↦
                      saving P c target session
                        (credential_to_save P session.choice.rsn target.secret)
                ]
                else (c, [])
          ])
      by_target none = stay-IsTracked P c timed
      by_target (some target) = by_save target target.save

  acquired-IsTracked :
      (c : Connection P) (lease : Lease)
      → IsTimed c.armed c.state
      → IsTracked P c.armed (on_lease P (acquired lease) c)
  unfolding on_lease
  acquired-IsTracked c lease timed =
      let applied : Turn P = emit P (apply_lease lease) c in
      let applied_ok : IsTracked P c.armed applied =
        emit-IsTracked P (apply_lease lease) c refl timed in
      let up : Turn P = then_do P applied (enter P connected) in
      let up_ok : IsTracked P c.armed up =
        then_do-IsTracked P c.armed applied (enter P connected) applied_ok
          (enter-IsTracked P connected c) in
      let reset : Turn P = then_do P up (reset_attempts P) in
      let reset_ok : IsTracked P c.armed reset =
        then_do-IsTracked P c.armed up (reset_attempts P) up_ok
          (stay-IsTracked P (reset_attempts P up.0).0 up_ok.1) in
      then_do-IsTracked P c.armed reset (save_profile P) reset_ok
        (save_profile-IsTracked reset.0 reset_ok.1)

  lost-IsTracked :
      (c : Connection P) (state : State)
      → IsTimed c.armed c.state
      → IsTracked P c.armed (elim state [
        | connected ↦ then_do P (enter P configuring c) (emit P start_dhcp)
        | _ ↦ (c, [])
      ])
  lost-IsTracked c connected timed =
      let entered : IsTracked P c.armed (enter P configuring c) = enter-IsTracked P configuring c in
      then_do-IsTracked P c.armed (enter P configuring c) (emit P start_dhcp) entered
        (emit-IsTracked P start_dhcp (enter P configuring c).0 refl entered.1)
  lost-IsTracked c _ timed = stay-IsTracked P c timed

  pub on_lease-IsTracked :
      (event : LeaseEvent) (c : Connection P)
      → IsTimed c.armed c.state
      → IsTracked P c.armed (on_lease P event c)
  unfolding on_lease
  on_lease-IsTracked (acquired lease) c timed = acquired-IsTracked c lease timed
  on_lease-IsTracked (lease_lost reason) c timed = lost-IsTracked c c.state timed
  on_lease-IsTracked lease_failed c timed = fail-IsTracked P dhcp c
