-- ===== src/Eapol/Key.antt =====
-- The EAPOL-Key descriptor and its Key Data (crates/caw-eapol/src/key.rs).
pub mod Data
use caw.Prelude.{
  ℕ, ◌+◌, ◌*◌, ◌/◌, ◌%◌, Bool, not, List, [], ◌∷◌, ◌++◌, ◌==◌, ltb, if◌then◌else◌, Option, none,
  some, Result, ok, err, length, take, drop, slice, replicate, get_or, bit_and,
}
use caw.Prelude.Words.{be_u16, u16_bytes, u32_bytes, u16_max}
use caw.Wifi.Suites.{Akm}
use caw.Crypto.{CryptoError}
use caw.Crypto.Mic.{Macs, KeyDescriptorVersion, from_key_info_for, compute_mic, verify_mic, mic_len}
use caw.Eap.Error.{Error, malformed, crypto}
use caw.Eapol.Frame.{eapol_hdr_len, packet_number, key_packet}

abbrev pub descriptor_type_rsn : ℕ
descriptor_type_rsn = 2

abbrev pub body_min : ℕ
body_min = 95

-- The header's 4 and the field's 77.
abbrev pub mic_offset : ℕ
mic_offset = 81

abbrev pub pairwise_bit : ℕ
pairwise_bit = 8

abbrev pub ack_bit : ℕ
ack_bit = 128

abbrev pub mic_bit : ℕ
mic_bit = 256

abbrev pub secure_bit : ℕ
secure_bit = 512

abbrev pub request_bit : ℕ
request_bit = 2048

abbrev pub encrypted_bit : ℕ
encrypted_bit = 4096

unfoldable pub has_bit : ℕ → ℕ → Bool
has_bit key_info mask = not (bit_and key_info mask == 0)

-- A caw-crypto error under `?`.
unfoldable pub lift_crypto : {A : Type 0} → Result A CryptoError → Result A Error
lift_crypto (ok a) = ok a
lift_crypto (err e) = err (crypto e)

unfoldable pub version_of : ℕ → Akm → Result KeyDescriptorVersion Error
version_of key_info akm = lift_crypto (from_key_info_for key_info akm)

pub record KeyFrame : Type 0 where
  pub descriptor_type : ℕ
  pub key_info : ℕ
  pub key_length : ℕ
  pub replay_counter : ℕ
  pub key_nonce : List ℕ
  pub key_iv : List ℕ
  pub key_rsc : List ℕ
  pub key_mic : List ℕ
  pub key_data : List ℕ

-- `u64::from_be_bytes`, the first byte the highest.
abbrev pub be_value : ℕ → List ℕ → ℕ
be_value acc [] = acc
be_value acc (b ∷ bs) = be_value (acc * 256 + b) bs

abbrev pub u64_bytes : ℕ → List ℕ
u64_bytes n = u32_bytes (n / 4_294_967_296) ++ u32_bytes n

abbrev be16 : ℕ → List ℕ → ℕ
be16 at body = be_u16 (get_or body at 0) (get_or body (at + 1) 0)

unfoldable pub parse_fields : List ℕ → KeyFrame
parse_fields body = record {
  descriptor_type = get_or body 0 0;
  key_info = be16 1 body;
  key_length = be16 3 body;
  replay_counter = be_value 0 (slice 5 13 body);
  key_nonce = slice 13 45 body;
  key_iv = slice 45 61 body;
  key_rsc = slice 61 69 body;
  key_mic = slice 77 93 body;
  key_data = take (be16 93 body) (drop body_min body);
}

unfoldable pub parse : List ℕ → Result KeyFrame Error
parse body =
    if ltb (length body) body_min
    then err malformed
    else if ltb (length body) (body_min + be16 93 body)
    then err malformed
    else ok (parse_fields body)

-- None where the code panics: the body's length has to fit in 16 bits.
unfoldable pub encode : KeyFrame → ℕ → Option (List ℕ)
encode f protocol_version =
    let body_len = body_min + length f.key_data in
    let head = protocol_version ∷ packet_number key_packet ∷ u16_bytes body_len in
    let words = u16_bytes f.key_info ++ u16_bytes f.key_length ++ u64_bytes f.replay_counter in
    let bytes = f.key_nonce ++ f.key_iv ++ f.key_rsc ++ replicate 8 0 ++ f.key_mic in
    if ltb u16_max body_len
    then none
    else some (
        head ++ (f.descriptor_type ∷ words) ++ bytes ++ u16_bytes (length f.key_data) ++ f.key_data)

-- The frame with its MIC field overwritten.
abbrev pub with_mic : List ℕ → List ℕ → List ℕ
with_mic mic frame = take mic_offset frame ++ mic ++ drop (mic_offset + mic_len) frame

abbrev pub zeroed : List ℕ → List ℕ
zeroed frame = with_mic (replicate mic_len 0) frame

unfoldable pub sign : Macs → List ℕ → KeyDescriptorVersion → List ℕ → List ℕ
sign macs kck version frame = with_mic (compute_mic macs kck version (zeroed frame)) (zeroed frame)

unfoldable pub encode_signed : Macs → KeyFrame → ℕ → List ℕ → KeyDescriptorVersion → Option (List ℕ)
encode_signed macs f protocol_version kck version = elim (encode f protocol_version) [
  | none ↦ none
  | some frame ↦ some (sign macs kck version frame)
]

unfoldable pub verify_frame_mic :
    Macs → List ℕ → List ℕ → KeyDescriptorVersion → List ℕ → Result (Unit {0}) Error
verify_frame_mic macs frame kck version mic =
    if ltb (length frame) (mic_offset + mic_len)
    then err malformed
    else lift_crypto (verify_mic macs kck version (zeroed frame) mic)
