-- ===== src/Core/Conn/Keys.antt =====
-- What an association and an EAPOL frame lead to (crates/caw-core/src/conn.rs, `on_associated`,
-- `on_eapol`, `drive_dot1x`).
use caw.Prelude.{ℕ, Bool, true, false, List, [], if◌then◌else◌, Option, none, some, Result, ok, err}
use caw.Crypto.{AuthContext, CryptoError, Step, send_step, wait_step, done_step}
use caw.Eap.Error.{Error}
use caw.Eapol.Frame
use caw.Eapol.Frame.{Eapol, PacketType, key_packet, eap_packet}
use caw.Eapol.FourWay.{frame_input}
use caw.Core.Failure.{internal, no_authentication_staged, from_crypto}
use caw.Core.Auth.{Providers, Auth, open_auth, offloaded, pre_assoc, post_assoc, ready, running}
use caw.Core.Conn.{
  State, handshaking, connected, send_eapol, Target, Session, Connection, auth_context,
}
use caw.Core.Conn.Transition.{Turn, then_try, emit, enter, fail}
use caw.Core.Conn.Handshake.{configured, drive_handshake, start_handshake}

-- `State::Handshaking | State::Connected`
unfoldable pub is_keying : State → Bool
is_keying handshaking = true
is_keying connected = true
is_keying _ = false

module _ (P : Providers) where
  unfoldable pub on_dot1x_step :
      P.Draw → Connection P → Session P → Result Step CryptoError → Option (Turn P)
  on_dot1x_step draw c session (ok (send_step frame)) = some (emit P (send_eapol frame) c)
  on_dot1x_step draw c session (ok wait_step) = some (c, [])
  on_dot1x_step draw c session (ok (done_step pmk)) =
      let handed : Session P = record session { auth = running } in
      start_handshake P draw pmk (record c { session = some handed })
  on_dot1x_step draw c session (err e) = some (fail P (from_crypto e) c)

  unfoldable pub dot1x_event :
      P.Draw → AuthContext → P.Dot1x → Option (List ℕ) → P.Dot1x × Result Step CryptoError
  dot1x_event draw context provider none = P.dot1x_start draw context provider
  dot1x_event draw context provider (some bytes) = P.dot1x_on_frame draw context bytes provider

  unfoldable pub dot1x_with :
      P.Draw → Option (List ℕ) → Connection P → Target → Session P → Auth P → Option (Turn P)
  dot1x_with draw frame c target session (post_assoc provider) =
      let context = auth_context target.ssid session.choice c.device.mac in
      let (next, step) = dot1x_event draw context provider frame in
      let driven : Session P = record session { auth = post_assoc next } in
      on_dot1x_step draw (record c { session = some driven }) driven step
  dot1x_with draw frame c target session auth = some (c, [])

  unfoldable pub drive_dot1x : P.Draw → Option (List ℕ) → Connection P → Option (Turn P)
  drive_dot1x draw frame c = elim c.target [
    | none ↦ some (c, [])
    | some target ↦ elim c.session [
      | none ↦ some (c, [])
      | some session ↦ dot1x_with draw frame c target session session.auth
    ]
  ]

  unfoldable pub associated_with : P.Draw → Connection P → Session P → Auth P → Option (Turn P)
  associated_with draw c session open_auth = some (configured P c)
  associated_with draw c session (offloaded o) =
      let opened : Session P = record session { auth = open_auth } in
      some (configured P (record c { session = some opened }))
  associated_with draw c session (ready pmk) =
      let handed : Session P = record session { auth = running } in
      start_handshake P draw pmk (record c { session = some handed })
  associated_with draw c session (post_assoc provider) =
      then_try P (enter P handshaking c) (drive_dot1x draw none)
  associated_with draw c session (pre_assoc provider) =
      some (fail P (internal no_authentication_staged) c)
  associated_with draw c session running = some (fail P (internal no_authentication_staged) c)

  unfoldable pub on_associated : P.Draw → Connection P → Option (Turn P)
  on_associated draw c = elim c.session [
    | none ↦ some (c, [])
    | some session ↦ associated_with draw c session session.auth
  ]

  unfoldable pub by_packet : P.Draw → List ℕ → Connection P → Result Eapol Error → Option (Turn P)
  by_packet draw frame c (err e) = some (c, [])
  by_packet draw frame c (ok eapol) = elim eapol.packet_type [
    | key_packet ↦ drive_handshake P (frame_input frame) c
    | eap_packet ↦ drive_dot1x draw (some frame) c
    | _ ↦ some (c, [])
  ]

  unfoldable pub on_eapol : P.Draw → List ℕ → Connection P → Option (Turn P)
  on_eapol draw frame c =
      if is_keying c.state then by_packet draw frame c (Frame.parse frame) else some (c, [])
