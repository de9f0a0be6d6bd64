-- ===== src/Eapol/FourWay/Examples.antt =====
-- Runs of the handshake with toy primitives: every MIC is zero, and key data are not wrapped.
use caw.Prelude.{
  ℕ, ◌+◌, length, List, [], ◌∷◌, ◌++◌, ◌≡◌, ◌≢◌, refl, Option, none, some, Result, ok, err,
  replicate,
}
use caw.Prelude.Words.{u16_bytes, u32_bytes}
use caw.Wifi.Suites.{psk, is_sae}
use caw.Crypto.{Ptk}
use caw.Crypto.Mic.{from_key_info_for, from_key_info, version_bits, compute_mic, verify_mic}
use caw.Eap.Error.{Error, unexpected_message, handshake_timeout, replayed_counter}
use caw.Eapol.Frame
use caw.Eapol.Frame.{Eapol, PacketType, key_packet, packet_type_of, packet_number}
use caw.Eapol.Frame.RoundTrip.{parse_frame-encode}
use caw.Eapol.Key
use caw.Eapol.Key.{
  KeyFrame, parse_fields, has_bit, version_of, lift_crypto, encode_signed, encode, sign,
  verify_frame_mic,
}
use caw.Eapol.Key.Data.{Gtk, rsn_element, key_data_items, items_in, item_of, gtk_kde, first_gtk}
use caw.Eapol.FourWay.{
  FourWay, Config, Primitives, Keys, Action, awaiting_msg3, failed, with_snonce, after_msg1,
  after_msg3, poll, settle, on_frame, attempt, is_failed, by_packet_type, on_key_frame, is_silent,
  unless_silent, on_fresh_frame, is_after, dispatch, on_msg1, derive, msg2_of, on_msg3,
  on_group_msg1, verify_group, group_msg2_of, verify_msg3, msg4_of, frame_input, timeout_input,
  send, arm_timer, retry_interval_ms,
}
use caw.Eapol.FourWay.Authentic.{completed, keys_in, IsInstall, poll-IsInstall}
use caw.Eapol.FourWay.Counters.{run, poll-replayed}
use caw.Eapol.FourWay.Failure.{poll-refused, answers, answers-timeouts}
use caw.Eapol.FourWay.Reinstall.{reinstall}

abbrev toy_ptk : Ptk
toy_ptk = record { kck = replicate 16 1; kek = replicate 16 2; tk = replicate 16 3 }

abbrev toy : Primitives
toy = record {
  macs = record { hmac_sha1 = λ key text. replicate 20 0; aes_cmac = λ key text. replicate 16 0 };
  derive_ptk = λ pmk akm bssid own anonce snonce. ok toy_ptk;
  unwrap_key_data = λ kek wrapped. ok wrapped;
}

abbrev rsn_ie : List ℕ
rsn_ie = 48 ∷ 2 ∷ 1 ∷ 0 ∷ []

abbrev toy_config : Config
toy_config = record {
  akm = psk;
  own_mac = replicate 6 2;
  bssid = replicate 6 4;
  assoc_rsn_ie = rsn_ie;
  beacon_rsn_ie = rsn_ie;
}

-- A frame of the authenticator with this counter; its MIC is zero.
abbrev key_frame_bytes : ℕ → ℕ → ℕ → List ℕ → List ℕ
key_frame_bytes hi lo counter key_data =
    (2 ∷ 3 ∷ 0 ∷ (95 + length key_data) ∷ 2 ∷ hi ∷ lo ∷ 0 ∷ 16 ∷ replicate 7 0)
    ++ (counter ∷ replicate 32 7)
    ++ replicate 48 0
    ++ (0 ∷ length key_data ∷ key_data)

abbrev msg1 : ℕ → List ℕ
msg1 counter = key_frame_bytes 0 138 counter []

abbrev toy_gtk : Gtk
toy_gtk = record { key = replicate 16 9; index = 1 }

abbrev msg3 : ℕ → List ℕ
msg3 counter =
    key_frame_bytes 17 138 counter
      (rsn_ie ++ (221 ∷ 22 ∷ 0x00 ∷ 0x0f ∷ 0xac ∷ 1 ∷ 1 ∷ 0 ∷ replicate 16 9))

abbrev fresh : FourWay
fresh = with_snonce (replicate 32 5) toy_config (replicate 32 6)

-- What is left of a machine by an input.
abbrev next_of : Option (FourWay × Result (List Action) Error) → FourWay
next_of none = fresh
next_of (some (h, r)) = h

abbrev waiting : FourWay
waiting = next_of (poll toy fresh (frame_input (msg1 1)))

abbrev keyed : FourWay
keyed = next_of (poll toy waiting (frame_input (msg3 2)))

waiting_state : waiting.state ≡ awaiting_msg3
unfolding poll settle on_frame attempt is_failed Frame.parse packet_type_of by_packet_type
    on_key_frame Key.parse parse_fields is_silent has_bit unless_silent on_fresh_frame is_after
    dispatch on_msg1 version_of lift_crypto from_key_info_for from_key_info version_bits derive
    msg2_of encode_signed encode sign compute_mic u16_bytes u32_bytes packet_number after_msg1
    with_snonce is_sae
waiting_state = refl

abbrev answered : Result (List Action) Error → List Action
answered (ok actions) = actions
answered (err e) = []

-- The actions of an input.
abbrev actions_of : Option (FourWay × Result (List Action) Error) → List Action
actions_of none = []
actions_of (some (h, r)) = answered r

abbrev sent_of : FourWay → List ℕ
sent_of h = elim h.last_sent [ none ↦ [] | some frame ↦ frame ]

abbrev toy_keys : Keys
toy_keys = record { ptk = toy_ptk; gtk = toy_gtk }

poll-IsInstall_example : IsInstall toy waiting keyed (frame_input (msg3 2)) toy_keys
unfolding poll settle on_frame attempt is_failed Frame.parse packet_type_of by_packet_type
    on_key_frame Key.parse parse_fields is_silent has_bit unless_silent on_fresh_frame is_after
    dispatch on_msg1 version_of lift_crypto from_key_info_for from_key_info version_bits derive
    msg2_of encode_signed encode sign compute_mic u16_bytes u32_bytes packet_number after_msg1
    with_snonce is_sae on_msg3 verify_msg3 verify_frame_mic verify_mic rsn_element key_data_items
    items_in item_of gtk_kde first_gtk msg4_of after_msg3 completed keys_in
poll-IsInstall_example =
    poll-IsInstall toy waiting keyed (actions_of (poll toy waiting (frame_input (msg3 2)))) toy_keys
      (frame_input (msg3 2)) refl refl

-- A group rekey's first message.
abbrev rekey : ℕ → List ℕ
rekey counter =
    key_frame_bytes 19 2 counter (221 ∷ 22 ∷ 0x00 ∷ 0x0f ∷ 0xac ∷ 1 ∷ 2 ∷ 0 ∷ replicate 16 8)

abbrev rekeyed : FourWay
rekeyed = next_of (poll toy keyed (frame_input (rekey 3)))

one_waits : (x : Action) (xs : List Action) → x ∷ xs ≢ []
one_waits x xs e = cc e

abbrev spent : FourWay
spent = next_of (poll toy waiting timeout_input)

poll-replayed_example :
    (failure : Error) × (poll toy rekeyed (frame_input (msg3 2))
      ≡ some (record rekeyed { state = failed }, err failure))
unfolding poll settle on_frame attempt is_failed Frame.parse packet_type_of by_packet_type
    on_key_frame Key.parse parse_fields is_silent has_bit unless_silent on_fresh_frame is_after
    dispatch on_msg1 version_of lift_crypto from_key_info_for from_key_info version_bits derive
    msg2_of encode_signed encode sign compute_mic u16_bytes u32_bytes packet_number after_msg1
    with_snonce is_sae on_msg3 verify_msg3 verify_frame_mic verify_mic rsn_element key_data_items
    items_in item_of gtk_kde first_gtk msg4_of after_msg3 completed keys_in on_group_msg1
    verify_group group_msg2_of run
poll-replayed_example =
    poll-replayed toy waiting keyed rekeyed (msg3 2) (frame_input (rekey 3) ∷ [])
      (actions_of (poll toy waiting (frame_input (msg3 2)))) refl (one_waits _ _) refl

abbrev lost : FourWay
lost = next_of (poll toy waiting (frame_input (msg1 1)))

poll-refused_example :
    (h : FourWay) × (run toy lost (timeout_input ∷ []) ≡ some h)
    × (poll toy h (frame_input (msg3 2)) ≡ some (h, err unexpected_message))
unfolding poll settle on_frame attempt is_failed Frame.parse packet_type_of by_packet_type
    on_key_frame Key.parse parse_fields is_silent has_bit unless_silent on_fresh_frame is_after
    dispatch on_msg1 version_of lift_crypto from_key_info_for from_key_info version_bits derive
    msg2_of encode_signed encode sign compute_mic u16_bytes u32_bytes packet_number after_msg1
    with_snonce is_sae on_msg3 verify_msg3 verify_frame_mic verify_mic rsn_element key_data_items
    items_in item_of gtk_kde first_gtk msg4_of after_msg3 completed keys_in
poll-refused_example =
    poll-refused toy waiting lost (frame_input (msg1 1)) replayed_counter (timeout_input ∷ [])
      (msg3 2) refl

answers-timeouts_example :
    answers toy waiting (timeout_input ∷ timeout_input ∷ timeout_input ∷ timeout_input ∷ [])
    ≡ some (
      record waiting { retries = 3; state = failed },
      ok (send (sent_of waiting) ∷ arm_timer retry_interval_ms ∷ [])
          ∷ ok (send (sent_of waiting) ∷ arm_timer retry_interval_ms ∷ [])
          ∷ ok (send (sent_of waiting) ∷ arm_timer retry_interval_ms ∷ [])
          ∷ err handshake_timeout
          ∷ [],
    )
unfolding poll settle on_frame attempt is_failed Frame.parse packet_type_of by_packet_type
    on_key_frame Key.parse parse_fields is_silent has_bit unless_silent on_fresh_frame is_after
    dispatch on_msg1 version_of lift_crypto from_key_info_for from_key_info version_bits derive
    msg2_of encode_signed encode sign compute_mic u16_bytes u32_bytes packet_number after_msg1
    with_snonce is_sae on_msg3 verify_msg3 verify_frame_mic verify_mic rsn_element key_data_items
    items_in item_of gtk_kde first_gtk msg4_of after_msg3 completed keys_in
answers-timeouts_example = answers-timeouts toy 3 waiting (sent_of waiting) refl refl

abbrev eapol_of : Result Eapol Error → Eapol
eapol_of (ok e) = e
eapol_of (err e) = record { version = 0; packet_type = key_packet; body = []; raw = [] }

abbrev msg_frame : List ℕ → Eapol
msg_frame bytes = eapol_of (Frame.parse bytes)

abbrev again : FourWay
again = next_of (poll toy keyed (frame_input (msg1 3)))

abbrev keyed_again : FourWay
keyed_again = next_of (poll toy again (frame_input (msg3 4)))

reinstall_example :
    (keys : Keys) × (completed (actions_of (poll toy again (frame_input (msg3 4)))) ≡ some keys)
    × (keyed.ptk ≡ some keys.ptk)
unfolding poll settle on_frame attempt is_failed Frame.parse packet_type_of by_packet_type
    on_key_frame Key.parse parse_fields is_silent has_bit unless_silent on_fresh_frame is_after
    dispatch on_msg1 version_of lift_crypto from_key_info_for from_key_info version_bits derive
    msg2_of encode_signed encode sign compute_mic u16_bytes u32_bytes packet_number after_msg1
    with_snonce is_sae on_msg3 verify_msg3 verify_frame_mic verify_mic rsn_element key_data_items
    items_in item_of gtk_kde first_gtk msg4_of after_msg3 completed keys_in
reinstall_example =
    reinstall toy keyed again keyed_again (msg_frame (msg1 3)) (msg_frame (msg3 4))
      (parse_fields (msg_frame (msg1 3)).body) (parse_fields (msg_frame (msg3 4)).body)
      (actions_of (poll toy keyed (frame_input (msg1 3))))
      (actions_of (poll toy again (frame_input (msg3 4)))) toy_ptk refl refl refl refl refl refl

parse_frame-encode_example :
    Frame.parse (2 ∷ 3 ∷ 0 ∷ 2 ∷ 7 ∷ 8 ∷ 0 ∷ 0 ∷ [])
    ≡ ok (record {
      version = 2;
      packet_type = key_packet;
      body = 7 ∷ 8 ∷ [];
      raw = 2 ∷ 3 ∷ 0 ∷ 2 ∷ 7 ∷ 8 ∷ [];
    })
unfolding Frame.encode u16_bytes packet_number
parse_frame-encode_example =
    parse_frame-encode 2 key_packet (7 ∷ 8 ∷ []) (0 ∷ 0 ∷ []) (2 ∷ 3 ∷ 0 ∷ 2 ∷ 7 ∷ 8 ∷ []) refl
