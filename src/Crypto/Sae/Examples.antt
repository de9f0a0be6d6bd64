-- ===== src/Crypto/Sae/Examples.antt =====
-- Two stations with one password (crates/caw-crypto/src/sae.rs), on the group of two points.
use caw.Prelude.{
  ℕ, ◌+◌, List, [], ◌∷◌, ◌≡◌, ◌≢◌, refl, ap, some, none, arith, true, false, replicate, All, ◌++◌,
  ok, err, get_or,
}
use caw.Wifi.Suites.{sae}
use caw.Crypto.{AuthContext, auth_failed, done_step}
use caw.Crypto.Sae.{Commit, SaeProvider, Session, State, committed, confirmed, accepted, failed}
use caw.Crypto.Sae.Derivation.{IsMade}
use caw.Crypto.Sae.Frames.{parse_auth}
use caw.Crypto.Sae.Invariant.{IsOwn}
use caw.Crypto.Sae.Runs.{Event, start_event, frame_event, timeout_event, run, run-IsOwn}
use caw.Crypto.Sae.Confirmed.{IsProof, on_frame-IsProof}
use caw.Crypto.Sae.Timeouts.{is_waiting, on_timeout-resends}
use caw.Crypto.Sae.Reflection.{on_frame-own_commit}
use caw.Crypto.Sae.Toy.{toy, toy-IsSaeGroup}
use caw.Crypto.Sae.Element.{
  password_token, password_element, map_to_point, address_value, from_be, to_be, scalar_from,
  encode_element,
}
use caw.Crypto.Sae.Exchange.{
  new, start_commit, on_frame, on_parsed, is_expected, on_auth, on_confirm, settle, check_confirm,
  confirm_hash, on_timeout, commit_fields,
}
use caw.Crypto.Sae.Meeting.{IsFacing, meet}
use caw.Crypto.Sae.Agreement.{agree, is_proper}

abbrev station : AuthContext
station = record { ssid = 67 ∷ []; bssid = replicate 6 4; own_mac = replicate 6 2; akm = sae }

abbrev access_point : AuthContext
access_point = record { ssid = 67 ∷ []; bssid = replicate 6 2; own_mac = replicate 6 4; akm = sae }

facing : IsFacing station access_point
facing = record {
  same_ssid = refl;
  bssid_of_a = refl;
  bssid_of_b = refl;
  sae_of_a = refl;
  sae_of_b = refl;
}

abbrev password : List ℕ
password = 112 ∷ 119 ∷ []

abbrev seed_of : ℕ → List ℕ
seed_of n = replicate 96 n

-- The commit of a seed: 2 and the sum of 48 octets, twice.
abbrev commit_of : ℕ → Commit toy
commit_of n = record {
  rand = record { acts = true; tag = 2 + n };
  scalar = record { acts = false; tag = 4 + n + n };
  pwe = true;
  scalar_bytes = 1 ∷ (4 + n + n) ∷ replicate 30 0;
  element_bytes = 9 ∷ replicate 63 0;
}

starts_station : start_commit toy station (new toy password (seed_of 1)) ≡ some (commit_of 48)
unfolding start_commit new password_token password_element map_to_point address_value from_be to_be
    scalar_from encode_element
starts_station = refl

starts_access_point :
    start_commit toy access_point (new toy password (seed_of 2)) ≡ some (commit_of 96)
unfolding start_commit new password_token password_element map_to_point address_value from_be to_be
    scalar_from encode_element
starts_access_point = refl

apart : (commit_of 48).scalar_bytes ≢ (commit_of 96).scalar_bytes
apart e = absurd (omega (arith, ap (λ bytes. get_or bytes 1 0) e))

agree_example :
    (pmk : List ℕ) × (pmkid : List ℕ) × (meet toy station access_point
        (new toy password (seed_of 1))
        (new toy password (seed_of 2))
      ≡ some ((pmk, some pmkid), (pmk, some pmkid)))
unfolding is_proper
agree_example =
    agree toy toy-IsSaeGroup station access_point password (seed_of 1) (seed_of 2) (commit_of 48)
      (commit_of 96) facing starts_station starts_access_point apart refl refl refl

station_sae : station.akm ≡ sae
station_sae = refl

-- A timeout, a frame that is no authentication frame, and another start.
abbrev events : List Event
events = timeout_event ∷ frame_event (3 ∷ 0 ∷ []) ∷ start_event station ∷ []

run-IsOwn_example :
    (last : SaeProvider toy) × (frames : List (List ℕ)) × (run toy
        (new toy password (seed_of 1))
        (start_event station ∷ events)
      ≡ some (last, frames))
    × All (IsOwn toy (commit_of 48)) frames
run-IsOwn_example =
    run-IsOwn toy toy-IsSaeGroup (commit_of 48) station password (seed_of 1) events station_sae
      starts_station (tt, ((omega arith, (omega arith, tt)), (tt, tt)))

abbrev session : Session
session = record {
  peer_scalar_bytes = (commit_of 96).scalar_bytes;
  peer_element_bytes = (commit_of 96).element_bytes;
  own_scalar_bytes = (commit_of 48).scalar_bytes;
  own_element_bytes = (commit_of 48).element_bytes;
  kck = 1 ∷ 2 ∷ [];
  pmk = replicate 32 5;
}

abbrev provider : State toy → SaeProvider toy
provider state = record {
  password = password;
  seed = [];
  state = state;
  last_sent = 1 ∷ 2 ∷ [];
  sync = 0;
  send_confirm = 1;
  token = none;
  pmkid = none;
}

-- The peer's confirm: its counter, and the hash over the sums of the key and of what it hashes.
abbrev confirm : List ℕ
confirm = 2 ∷ 0 ∷ 3 ∷ 318 ∷ replicate 30 7

accepts_confirm :
    on_frame toy (provider (confirmed session)) (3 ∷ 0 ∷ 2 ∷ 0 ∷ 0 ∷ 0 ∷ confirm)
    ≡ some (
      record (provider (confirmed session)) { state = accepted; last_sent = [] },
      ok (done_step (replicate 32 5)),
    )
unfolding on_frame on_parsed parse_auth is_expected on_auth on_confirm settle check_confirm
    confirm_hash
accepts_confirm = refl

on_frame-IsProof_example :
    IsProof toy
      (provider (confirmed session))
      (record (provider (confirmed session)) { state = accepted; last_sent = [] })
      (3 ∷ 0 ∷ 2 ∷ 0 ∷ 0 ∷ 0 ∷ confirm)
      (replicate 32 5)
on_frame-IsProof_example =
    on_frame-IsProof toy (provider (confirmed session))
      (record (provider (confirmed session)) { state = accepted; last_sent = [] })
      (3 ∷ 0 ∷ 2 ∷ 0 ∷ 0 ∷ 0 ∷ confirm) (replicate 32 5) accepts_confirm

waits : is_waiting toy (provider (confirmed session)).state ≡ true
unfolding is_waiting
waits = refl

on_timeout-resends_example :
    (run toy (provider (confirmed session)) (replicate 3 timeout_event)
      ≡ some (record (provider (confirmed session)) { sync = 3 }, replicate 3 (1 ∷ 2 ∷ [])))
    × (on_timeout toy (record (provider (confirmed session)) { sync = 5 })
        ≡ (record (provider (confirmed session)) { sync = 6 }, err auth_failed))
on_timeout-resends_example =
    on_timeout-resends toy (provider (confirmed session)) waits 3 refl (omega arith)

made : IsMade toy true (commit_of 48)
unfolding encode_element
made = record {
  mask = record { acts = true; tag = 50 };
  same_pwe = refl;
  has_scalar = refl;
  has_bytes = refl;
  has_element = refl;
}

on_frame-own_commit_example :
    on_frame toy (provider (committed (commit_of 48))) (commit_fields toy (commit_of 48) ++ [])
    ≡ some (record (provider (committed (commit_of 48))) { state = failed }, err auth_failed)
on_frame-own_commit_example =
    on_frame-own_commit toy toy-IsSaeGroup (provider (committed (commit_of 48))) (commit_of 48) true
      [] refl made
