-- ===== src/Core/Conn/Transition.antt =====
-- How the connection moves between states, and its timer (crates/caw-core/src/conn.rs, `enter` to
-- `credential`).
use caw.Prelude.{
  ℕ, ◌+◌, ◌^◌, ◌%◌, Bool, true, false, not, ◌&&◌, List, [], ◌∷◌, ◌++◌, ◌==◌, if◌then◌else◌, Option,
  none, some, find,
}
use caw.Prelude.Words.{bytes_eq}
use caw.Core.Policy.{Credential, no_credential, passphrase}
use caw.Core.Profile.{Profile}
use caw.Core.Failure.{Failure, is_terminal, is_disconnected}
use caw.Core.Auth.{Providers}
use caw.Core.Conn.{
  State, idle, associating, handshaking, configuring, connected, reconnecting, TimerId,
  scan_timeout, auth_timeout, assoc_timeout, handshake_retry, reconnect_backoff, Target, Connection,
  Action, set_timer, clear_timer, notify, failed, disconnect_action, timer_of, backoff_ms,
  reason_leaving,
}

abbrev pub timer_tag : TimerId → ℕ
timer_tag scan_timeout = 0
timer_tag auth_timeout = 1
timer_tag assoc_timeout = 2
timer_tag handshake_retry = 3
timer_tag reconnect_backoff = 4

-- `armed.is_some() && armed != timer_of(state)`
unfoldable pub is_stale : Option TimerId → Option TimerId → Bool
is_stale none wanted = false
is_stale (some id) none = true
is_stale (some id) (some wanted) = not (timer_tag id == timer_tag wanted)

unfoldable pub is_associated : State → Bool
is_associated associating = true
is_associated handshaking = true
is_associated configuring = true
is_associated connected = true
is_associated _ = false

abbrev pub wants_retry : Option Target → Bool
wants_retry none = false
wants_retry (some target) = target.retry

module _ (P : Providers) where
  -- A machine and what it has asked for.
  abbrev pub Turn : Type 0
  Turn = Connection P × List Action

  -- The calls of one method, in order.
  abbrev pub then_do : Turn → (Connection P → Turn) → Turn
  then_do (c, out) f = let (next, more) = f c in (next, out ++ more)

  abbrev pub with_more : List Action → Option Turn → Option Turn
  with_more out none = none
  with_more out (some (c, more)) = some (c, out ++ more)

  abbrev pub then_try : Turn → (Connection P → Option Turn) → Option Turn
  then_try (c, out) f = with_more out (f c)

  abbrev pub emit : Action → Connection P → Turn
  emit action c = (c, action ∷ [])

  unfoldable pub arm : TimerId → ℕ → Connection P → Turn
  arm id millis c = (record c { armed = some id }, set_timer id millis ∷ [])

  abbrev pub cleared : Option TimerId → List Action
  cleared none = []
  cleared (some id) = clear_timer id ∷ []

  unfoldable pub disarm : Connection P → Turn
  disarm c = (record c { armed = none }, cleared c.armed)

  unfoldable pub enter : State → Connection P → Turn
  enter state c =
      let (settled, out) : Turn = if is_stale c.armed (timer_of state) then disarm c else (c, []) in
      (record settled { state = state }, out ++ (notify state ∷ []))

  unfoldable pub go_idle : Connection P → Turn
  go_idle c =
      let (settled, out) = disarm c in
      (
        record settled {
          state = idle;
          target = none;
          session = none;
          pending = none;
          attempts = 0;
        },
        out ++ (notify idle ∷ []),
      )

  -- `attempts` is 32 bits wide.
  unfoldable pub back_off : Connection P → Turn
  back_off c =
      let counted : Connection P = record c { attempts = (c.attempts + 1) % 2 ^ 32 } in
      then_do (enter reconnecting counted) (arm reconnect_backoff (backoff_ms counted.attempts))

  unfoldable pub give_up : Failure → Connection P → Turn
  give_up failure c =
      let (settled, out) = disarm c in
      (record settled { state = idle; target = none; attempts = 0 }, out ++ (failed failure ∷ []))

  unfoldable pub will_retry : Failure → Connection P → Bool
  will_retry failure c = not (is_terminal failure) && wants_retry c.target

  unfoldable pub tear_down : Failure → Connection P → List Action
  tear_down failure c =
      if is_associated c.state && not (is_disconnected failure)
      then disconnect_action reason_leaving ∷ []
      else []

  unfoldable pub fail : Failure → Connection P → Turn
  fail failure c =
      let bare : Connection P = record c { session = none; pending = none } in
      let (next, out) = if will_retry failure c then back_off bare else give_up failure bare in
      (next, tear_down failure c ++ out)

  abbrev pub ssid_of : Option Target → List ℕ
  ssid_of none = []
  ssid_of (some target) = target.ssid

  unfoldable pub profile_in : List Profile → Option Target → Option Profile
  profile_in profiles none = none
  profile_in profiles (some target) = find (λ p. bytes_eq p.ssid target.ssid) profiles

  abbrev typed_secret : Option Target → Option Credential
  typed_secret none = none
  typed_secret (some target) = elim target.secret [ none ↦ none | some s ↦ some (passphrase s) ]

  unfoldable pub credential_of : Connection P → Bool → Option Credential
  credential_of c true = some no_credential
  credential_of c false = elim (profile_in c.profiles c.target) [
    | none ↦ typed_secret c.target
    | some profile ↦ some profile.credential
  ]
