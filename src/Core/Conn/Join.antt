-- ===== src/Core/Conn/Join.antt =====
-- Authenticating with a BSS and associating (crates/caw-core/src/conn.rs, `start_sae` to
-- `associate`).
use caw.Prelude.{
  ℕ, not, ◌||◌, List, [], ◌==◌, ltb, if◌then◌else◌, Option, none, some, Result, ok, err, length,
  drop, slice, get_or,
}
use caw.Prelude.Words.{bytes_eq}
use caw.Wifi.Nl80211.{authtype_sae}
use caw.Crypto.{CryptoError, Step, send_step, wait_step, done_step}
use caw.Core.Failure.{internal, frame_without_body, from_crypto}
use caw.Core.Auth.{
  Providers, Auth, open_auth, offloaded, pre_assoc, ready, Offload, SaeEvent, sae_start,
}
use caw.Core.Conn.{
  authenticating, associating, auth_timeout, assoc_timeout, auth_timeout_ms, assoc_timeout_ms,
  AuthRequest, AssocRequest, associate_action, authenticate_action, Target, Negotiated, Session,
  Connection, auth_context,
}
use caw.Core.Conn.Transition.{Turn, then_do, then_try, emit, arm, enter, fail}
use caw.Core.Conn.Negotiate.{mgmt_header_len, fc_auth, element_of, open_request, secured_request}

module _ (P : Providers) where
  -- The offloaded credential leaves the session with the request.
  unfoldable pub offload_of : Auth P → Option Offload
  offload_of (offloaded o) = some o
  offload_of _ = none

  unfoldable pub left_of : Auth P → Auth P
  left_of (offloaded o) = open_auth
  left_of auth = auth

  unfoldable pub send_association : AssocRequest → Session P → Connection P → Turn P
  send_association request session c =
      then_do P
        (then_do P (enter P associating (record c { session = some session }))
          (emit P (associate_action request)))
        (arm P assoc_timeout assoc_timeout_ms)

  unfoldable pub associate_secured :
      AssocRequest → Session P → Connection P → Negotiated → Option (List ℕ) → Option (Turn P)
  associate_secured request session c rsn none = none
  associate_secured request session c rsn (some element) =
      let asked = secured_request request rsn element in
      some (send_association asked (record session { assoc_ie = asked.ies }) c)

  unfoldable pub associate_with : Connection P → Target → Session P → Option (Turn P)
  associate_with c target session =
      let request =
        open_request c.device.ifindex target.ssid session.choice (offload_of session.auth) in
      let left : Session P = record session { auth = left_of session.auth } in
      elim session.choice.rsn [
        | none ↦ some (send_association request left c)
        | some rsn ↦ associate_secured request left c rsn (element_of session.pmkid rsn)
      ]

  -- None where no target is set, or no session is planned.
  unfoldable pub associate : Connection P → Option (Turn P)
  associate c = elim c.target [
    | none ↦ none
    | some target ↦ elim c.session [ none ↦ none | some session ↦ associate_with c target session ]
  ]

  abbrev request_to : Connection P → Target → Session P → List ℕ → Option AuthRequest
  request_to c target session frame =
      if ltb (length frame) 2
      then none
      else some (record {
        ifindex = c.device.ifindex;
        ssid = target.ssid;
        bssid = session.choice.bssid;
        freq_mhz = session.choice.freq_mhz;
        auth_type = authtype_sae;
        body = drop 2 frame;
      })

  unfoldable pub auth_request : Connection P → List ℕ → Option AuthRequest
  auth_request c frame = elim c.target [
    | none ↦ none
    | some target ↦ elim c.session [
      | none ↦ none
      | some session ↦ request_to c target session frame
    ]
  ]

  unfoldable pub send_auth : Connection P → Option AuthRequest → Turn P
  send_auth c none = fail P (internal frame_without_body) c
  send_auth c (some request) =
      then_do P (emit P (authenticate_action request) c) (arm P auth_timeout auth_timeout_ms)

  unfoldable pub pmkid_of : Auth P → Option (List ℕ) → Option (List ℕ)
  pmkid_of (pre_assoc provider) before = P.sae_pmkid provider
  pmkid_of _ before = before

  unfoldable pub on_sae_done : Connection P → List ℕ → Option (Session P) → Option (Turn P)
  on_sae_done c pmk none = none
  on_sae_done c pmk (some session) =
      let keyed : Session P = record session {
        pmkid = pmkid_of session.auth session.pmkid;
        auth = ready pmk;
      } in
      associate (record c { session = some keyed })

  unfoldable pub on_sae_step : Connection P → Result Step CryptoError → Option (Turn P)
  on_sae_step c (ok (send_step frame)) = some (send_auth c (auth_request c frame))
  on_sae_step c (ok wait_step) = some (c, [])
  on_sae_step c (ok (done_step pmk)) = on_sae_done c pmk c.session
  on_sae_step c (err e) = some (fail P (from_crypto e) c)

  unfoldable pub drive_provider :
      P.Draw → SaeEvent → Connection P → Target → Session P → Auth P → Option (Turn P)
  drive_provider draw event c target session (pre_assoc provider) =
      let context = auth_context target.ssid session.choice c.device.mac in
      let (next, step) = P.sae_step draw context event provider in
      let driven : Session P = record session { auth = pre_assoc next } in
      on_sae_step (record c { session = some driven }) step
  drive_provider draw event c target session auth = some (c, [])

  unfoldable pub drive_sae : P.Draw → SaeEvent → Connection P → Option (Turn P)
  drive_sae draw event c = elim c.target [
    | none ↦ some (c, [])
    | some target ↦ elim c.session [
      | none ↦ some (c, [])
      | some session ↦ drive_provider draw event c target session session.auth
    ]
  ]

  unfoldable pub start_sae : P.Draw → Connection P → Option (Turn P)
  start_sae draw c = then_try P (enter P authenticating c) (drive_sae draw sae_start)

  -- The body of an authentication frame from the AP.
  unfoldable pub body_from : List ℕ → List ℕ → Option (List ℕ)
  body_from bssid frame =
      if ltb (length frame) mgmt_header_len || not (get_or frame 0 0 == fc_auth)
      then none
      else if bytes_eq (slice 10 16 frame) bssid
      then some (drop mgmt_header_len frame)
      else none

  unfoldable pub auth_body : Connection P → List ℕ → Option (List ℕ)
  auth_body c frame = elim c.session [
    | none ↦ none
    | some session ↦ body_from session.choice.bssid frame
  ]
