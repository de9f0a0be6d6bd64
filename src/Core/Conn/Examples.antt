-- ===== src/Core/Conn/Examples.antt =====
-- Runs of the connection with toy providers.
use caw.Prelude.{
  ℕ, true, false, List, [], ◌∷◌, ◌++◌, ◌≡◌, ◌⊎◌, refl, Option, none, some, ok, err, replicate,
}
use caw.Prelude.Ints.{negsuc}
use caw.Wifi.Suites.{open_network}
use caw.Wifi.Nl80211.{Bss, scan_complete, connected_event, success}
use caw.Crypto.{Ptk, done_step, wait_step, post_assoc_stage}
use caw.Eapol.FourWay.{Primitives}
use caw.Core.Failure.{is_terminal, is_disconnected, not_found, unsupported_security}
use caw.Core.Auth.{Providers}
use caw.Core.Conn.{
  Device, command, connect, wireless, scan_results, lease_input, lease_failed, new, timer_of,
  timer_input, reconnect_backoff,
}
use caw.Core.Conn.Transition.{
  arm, disarm, enter, is_stale, profile_in, credential_of, give_up, back_off, will_retry, tear_down,
  is_associated, fail,
}
use caw.Core.Conn.Events.{
  poll, on_timer, on_command, on_wireless, on_scan_results, on_scan_complete, on_connect,
  start_scan, select, towards, select_target, target_for, plan_named, bss_named, on_status,
}
use caw.Core.Policy.{no_credential, is_at_least, strength}
use caw.Core.Policy.Select.{best_bss}
use caw.Core.Profile.{Profile, accepts}
use caw.Core.Conn.Plan.{plan, plan_with, join, auth_for, begin, is_pre_assoc, session_of}
use caw.Core.Conn.Negotiate.{evaluate, suites_of, security_of, check_floor, choice_of, open_request}
use caw.Core.Conn.Join.{associate, associate_with, offload_of, left_of, send_association}
use caw.Core.Conn.Keys.{on_associated, associated_with}
use caw.Core.Conn.Handshake.{configured}
use caw.Core.Conn.Address.{on_lease}
use caw.Core.Conn.Clock.{Clock, unset, runs, held, expire, clock_replay, clock_step}
use caw.Core.Conn.Runs.{
  Happening, expiry, given, Operated, standing, IsSound, operate, operate-IsSound,
}
use caw.Core.Conn.Failing.{fail-IsRetried, IsRetried, IsOver}

abbrev toy_ptk : Ptk
toy_ptk = record { kck = replicate 16 1; kek = replicate 16 2; tk = replicate 16 3 }

abbrev toy_primitives : Primitives
toy_primitives = record {
  macs = record { hmac_sha1 = λ key text. replicate 20 0; aes_cmac = λ key text. replicate 16 0 };
  derive_ptk = λ pmk akm bssid own anonce snonce. ok toy_ptk;
  unwrap_key_data = λ kek wrapped. ok wrapped;
}

-- What is drawn is the nonce.
abbrev toy : Providers
toy = record {
  Draw = List ℕ;
  Sae = Unit {0};
  Dot1x = Unit {0};
  has_enterprise = false;
  primitives = toy_primitives;
  random_nonce = λ draw. ok draw;
  psk_start = λ secret ctx. ok (done_step (replicate 32 5));
  sae_new = λ secret. tt;
  sae_step = λ draw ctx event s. (s, ok wait_step);
  sae_pmkid = λ s. none;
  enterprise_provider = λ draw identity anonymous server method ca. err unsupported_security;
  dot1x_stage = λ d. post_assoc_stage;
  dot1x_start = λ draw ctx d. (d, ok wait_step);
  dot1x_on_frame = λ draw ctx frame d. (d, ok wait_step);
}

abbrev device : Device
device = record {
  ifindex = 3;
  mac = replicate 6 2;
  caps = record { offloads_4way_psk = false; offloads_4way_1x = false; offloads_sae = false };
}

abbrev cafe : Bss
cafe = record {
  bssid = replicate 6 4;
  ssid = 67 ∷ 97 ∷ [];
  freq_mhz = 2412;
  signal_dbm = negsuc 49;
  last_seen_ms = 10;
  capability = 1;
  security = open_network;
  rsn = none;
}

abbrev known : Profile
known = record {
  ssid = 67 ∷ 97 ∷ [];
  security = open_network;
  credential = no_credential;
  autoconnect = true;
  min_security = open_network;
}

-- A known network is not there, and the backoff expires before the next scan finds it; it is
-- joined, and no address comes.
abbrev missing : List (Happening toy)
missing =
    given [] (command (connect (67 ∷ 97 ∷ [])))
    ∷ given [] (scan_results [])
    ∷ expiry
    ∷ given [] (timer_input reconnect_backoff)
    ∷ []

abbrev events : List (Happening toy)
events =
    missing
    ++ (given [] (wireless (scan_complete 0 3))
        ∷ given [] (scan_results (cafe ∷ []))
        ∷ given [] (wireless (connected_event none success))
        ∷ given [] (lease_input lease_failed)
        ∷ [])

abbrev clock_of : Operated toy → Option Clock
clock_of (standing c clock) = some clock
clock_of _ = none

operate-IsSound_example : IsSound toy (operate toy events (new toy device (known ∷ [])) unset)
operate-IsSound_example = operate-IsSound toy device (known ∷ []) events

backs_off :
    clock_of (operate toy events (new toy device (known ∷ [])) unset)
    ≡ some (runs reconnect_backoff)
unfolding on_timer accepts is_at_least strength operate held expire clock_replay clock_step new
    timer_of fail poll on_command on_wireless on_scan_results on_scan_complete on_connect start_scan
    select towards select_target target_for plan_named bss_named on_status arm disarm enter is_stale
    profile_in credential_of give_up back_off will_retry tear_down is_associated best_bss plan
    plan_with join auth_for begin is_pre_assoc session_of evaluate suites_of security_of check_floor
    choice_of open_request associate associate_with offload_of left_of send_association
    on_associated associated_with configured on_lease is_terminal is_disconnected
backs_off = refl

fail-IsRetried_example :
    ((fail toy not_found (new toy device [])).0.session ≡ none)
    × (IsRetried toy not_found (new toy device []) (fail toy not_found (new toy device []))
        ⊎ IsOver toy not_found (fail toy not_found (new toy device [])))
fail-IsRetried_example = fail-IsRetried toy not_found (new toy device [])
