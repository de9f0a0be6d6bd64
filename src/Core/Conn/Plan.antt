-- ===== src/Core/Conn/Plan.antt =====
-- Deciding how to join a BSS (crates/caw-core/src/conn.rs, `plan`).
use caw.Prelude.{
  Bool, true, false, [], ◌∷◌, ◌++◌, if◌then◌else◌, Option, none, some, Result, ok, err,
}
use caw.Wifi.Suites.{is_enterprise, RsnIe}
use caw.Wifi.Nl80211.{Bss}
use caw.Core.Policy.{Credential}
use caw.Core.Failure.{Failure, missing_credential}
use caw.Core.Auth.{Providers, Auth, open_auth, pre_assoc, assemble}
use caw.Core.Conn.{request_secret, Negotiated, Choice, Session, Connection, auth_context}
use caw.Core.Conn.Transition.{Turn, disarm, fail, ssid_of, credential_of}
use caw.Core.Conn.Negotiate.{evaluate}
use caw.Core.Conn.Join.{associate, start_sae}

module _ (P : Providers) where
  unfoldable pub is_pre_assoc : Auth P → Bool
  is_pre_assoc (pre_assoc provider) = true
  is_pre_assoc _ = false

  unfoldable pub session_of : Choice → Auth P → Session P
  session_of choice auth = record {
    choice = choice;
    auth = auth;
    pmkid = none;
    assoc_ie = [];
    handshake = none;
  }

  unfoldable pub begin : P.Draw → Choice → Connection P → Auth P → Option (Turn P)
  begin draw choice c auth =
      let planned : Connection P = record c { session = some (session_of choice auth) } in
      if is_pre_assoc auth
      then (if choice.roaming then some (c, []) else start_sae P draw planned)
      else associate P planned

  -- An open network proves nothing.
  unfoldable pub auth_for : P.Draw → Connection P → Choice → Credential → Result (Auth P) Failure
  auth_for draw c choice credential = elim choice.rsn [
    | none ↦ ok open_auth
    | some rsn ↦
        let context = auth_context (ssid_of P c.target) choice c.device.mac in
        assemble P draw context.akm credential c.device.caps context
  ]

  unfoldable pub join : P.Draw → Choice → Connection P → Result (Auth P) Failure → Option (Turn P)
  join draw choice c (err failure) = some (fail P failure c)
  join draw choice c (ok auth) = begin draw choice c auth

  abbrev needs_identity : Option Negotiated → Bool
  needs_identity none = false
  needs_identity (some rsn) = is_enterprise rsn.akm

  -- No credential is in hand.
  unfoldable pub ask_unless : Bss → Connection P → Bool → Turn P
  ask_unless bss c true = fail P missing_credential c
  ask_unless bss c false =
      let (settled, out) = disarm P c in
      (record settled { pending = some bss }, out ++ (request_secret (ssid_of P c.target) ∷ []))

  unfoldable pub ask : Bss → Choice → Connection P → Turn P
  ask bss choice c = ask_unless bss c (needs_identity choice.rsn)

  unfoldable pub plan_with :
      P.Draw
      → Bss
      → Bool
      → Connection P
      → Option Credential
      → Result Choice Failure
      → Option (Turn P)
  plan_with draw bss roaming c credential (err failure) =
      some (if roaming then (c, []) else fail P failure c)
  plan_with draw bss roaming c none (ok choice) = some (ask bss choice c)
  plan_with draw bss roaming c (some credential) (ok choice) =
      join draw choice c (auth_for draw c choice credential)

  abbrev has_no_rsn : Option RsnIe → Bool
  has_no_rsn none = true
  has_no_rsn (some rsn) = false

  unfoldable pub plan : P.Draw → Bss → Bool → Connection P → Option (Turn P)
  plan draw bss roaming c =
      let credential = credential_of P c (has_no_rsn bss.rsn) in
      plan_with draw bss roaming c credential (evaluate P c bss credential roaming)
