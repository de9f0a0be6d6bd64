-- ===== src/Core/Conn/TimedKeys.antt =====
-- The timers of keying the link (crates/caw-core/src/conn.rs, `on_associated`, `on_eapol`,
-- `drive_dot1x`).
use caw.Prelude.{ℕ, true, List, [], ◌≡◌, refl, Option, none, some, Result, ok, err}
use caw.Crypto.{CryptoError, Step, send_step, wait_step, done_step}
use caw.Eap.Error.{Error}
use caw.Eapol.Frame.{Eapol, PacketType, key_packet, eap_packet, start_packet, logoff_packet}
use caw.Eapol.FourWay.{frame_input}
use caw.Core.Failure.{internal, no_authentication_staged, from_crypto}
use caw.Core.Auth.{Providers, Auth, open_auth, offloaded, pre_assoc, post_assoc, ready, running}
use caw.Core.Conn.{handshaking, send_eapol, Target, Session, Connection}
use caw.Core.Conn.Transition.{enter}
use caw.Core.Conn.Handshake.{drive_handshake, start_handshake}
use caw.Core.Conn.Keys.{
  on_dot1x_step, dot1x_with, drive_dot1x, by_packet, associated_with, on_associated, is_keying,
  on_eapol,
}
use caw.Core.Conn.Replay.{IsTimed}
use caw.Core.Conn.Timed.{
  IsTracked, Tracks, then_try-Tracks, stay-IsTracked, emit-IsTracked, enter-IsTracked,
  fail-IsTracked, by_option-Tracks, by_test-Tracks,
}
use caw.Core.Conn.TimedHandshake.{
  configured-IsTracked, drive_handshake-Tracks, open_handshake-IsTracked,
}

module _ (P : Providers) where
  module _ (draw : P.Draw) where
    start_handshake-Tracks :
        (pmk : List ℕ) (c : Connection P) → Tracks P c.armed (start_handshake P draw pmk c)
    unfolding start_handshake
    start_handshake-Tracks pmk c = by_option-Tracks P c.armed c.session _ _ tt (λ session.
        by_option-Tracks P c.armed session.choice.rsn _ _ tt
          (λ rsn. open_handshake-IsTracked P pmk c session rsn _))

    on_dot1x_step-Tracks :
        (c : Connection P) (session : Session P) (step : Result Step CryptoError)
        → IsTimed c.armed c.state
        → Tracks P c.armed (on_dot1x_step P draw c session step)
    unfolding on_dot1x_step
    on_dot1x_step-Tracks c session (ok (send_step frame)) timed =
        emit-IsTracked P (send_eapol frame) c refl timed
    on_dot1x_step-Tracks c session (ok wait_step) timed = stay-IsTracked P c timed
    on_dot1x_step-Tracks c session (ok (done_step pmk)) timed = start_handshake-Tracks pmk _
    on_dot1x_step-Tracks c session (err e) timed = fail-IsTracked P (from_crypto e) c

    dot1x_with-Tracks :
        (frame : Option (List ℕ)) (c : Connection P) (target : Target) (session : Session P)
        (auth : Auth P)
        → IsTimed c.armed c.state
        → Tracks P c.armed (dot1x_with P draw frame c target session auth)
    unfolding dot1x_with
    dot1x_with-Tracks frame c target session (post_assoc provider) timed =
        on_dot1x_step-Tracks _ _ _ timed
    dot1x_with-Tracks frame c target session open_auth timed = stay-IsTracked P c timed
    dot1x_with-Tracks frame c target session (offloaded o) timed = stay-IsTracked P c timed
    dot1x_with-Tracks frame c target session (pre_assoc p) timed = stay-IsTracked P c timed
    dot1x_with-Tracks frame c target session (ready pmk) timed = stay-IsTracked P c timed
    dot1x_with-Tracks frame c target session running timed = stay-IsTracked P c timed

    drive_dot1x-Tracks :
        (frame : Option (List ℕ)) (c : Connection P)
        → IsTimed c.armed c.state
        → Tracks P c.armed (drive_dot1x P draw frame c)
    unfolding drive_dot1x
    drive_dot1x-Tracks frame c timed =
        by_option-Tracks P c.armed c.target _ _ (stay-IsTracked P c timed) (λ target.
          by_option-Tracks P c.armed c.session _ _ (stay-IsTracked P c timed)
            (λ session. dot1x_with-Tracks frame c target session session.auth timed))

    associated_with-Tracks :
        (c : Connection P) (session : Session P) (auth : Auth P)
        → Tracks P c.armed (associated_with P draw c session auth)
    unfolding associated_with
    associated_with-Tracks c session open_auth = configured-IsTracked P c
    associated_with-Tracks c session (offloaded o) = configured-IsTracked P _
    associated_with-Tracks c session (ready pmk) = start_handshake-Tracks pmk _
    associated_with-Tracks c session (post_assoc provider) =
        let entered : IsTracked P c.armed (enter P handshaking c) =
          enter-IsTracked P handshaking c in
        then_try-Tracks P c.armed (enter P handshaking c) (drive_dot1x P draw none) entered
          (drive_dot1x-Tracks none (enter P handshaking c).0 entered.1)
    associated_with-Tracks c session (pre_assoc p) =
        fail-IsTracked P (internal no_authentication_staged) c
    associated_with-Tracks c session running =
        fail-IsTracked P (internal no_authentication_staged) c

    pub on_associated-Tracks :
        (c : Connection P) → IsTimed c.armed c.state → Tracks P c.armed (on_associated P draw c)
    unfolding on_associated
    on_associated-Tracks c timed =
        by_option-Tracks P c.armed c.session _ _ (stay-IsTracked P c timed)
          (λ session. associated_with-Tracks c session session.auth)

    by_packet-Tracks :
        (frame : List ℕ) (c : Connection P) (parsed : Result Eapol Error)
        → IsTimed c.armed c.state
        → is_keying c.state ≡ true
        → Tracks P c.armed (by_packet P draw frame c parsed)
    unfolding by_packet
    by_packet-Tracks frame c (err e) timed here = stay-IsTracked P c timed
    by_packet-Tracks frame c (ok eapol) timed here = by_type eapol.packet_type
      where
        by_type :
            (kind : PacketType)
            → Tracks P c.armed (elim kind [
              | key_packet ↦ drive_handshake P (frame_input frame) c
              | eap_packet ↦ drive_dot1x P draw (some frame) c
              | _ ↦ some (c, [])
            ])
        by_type key_packet = drive_handshake-Tracks P (frame_input frame) c timed here
        by_type eap_packet = drive_dot1x-Tracks (some frame) c timed
        by_type start_packet = stay-IsTracked P c timed
        by_type logoff_packet = stay-IsTracked P c timed

    pub on_eapol-Tracks :
        (frame : List ℕ) (c : Connection P)
        → IsTimed c.armed c.state
        → Tracks P c.armed (on_eapol P draw frame c)
    unfolding on_eapol
    on_eapol-Tracks frame c timed =
        by_test-Tracks P c.armed (is_keying c.state) _ _
          (λ here. by_packet-Tracks frame c _ timed here) (λ _. stay-IsTracked P c timed)
