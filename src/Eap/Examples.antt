-- ===== src/Eap/Examples.antt =====
-- A message of three fragments, and a Nak: the theorems at concrete inputs
-- (crates/caw-eapol/src/eap).
use caw.Prelude.{ℕ, List, [], ◌∷◌, ◌++◌, ◌≡◌, refl, arith, some, none, ok, true, false}
use caw.Eap.Packet.{
  EapCode, response, EapPacket, type_nak, eap_type, type_data, encode, nak, encode_response,
  code_byte,
}
use caw.Prelude.Words.{u16_bytes}
use caw.Eap.Packet
use caw.Eap.Packet.RoundTrip.{parse-encode}
use caw.Eap.Frag.{Fragment, Reassembler, new_reassembler, all_sent}
use caw.Eap.Frag.Bounds.{IsBounded}
use caw.Eap.Exchange.{Exchange, on_request}
use caw.Eap.Exchange.Safety.{IsSafe, Returns, on_request-Returns}
use caw.Eap.Exchange.Converse.{deliver, deliver_lem}

abbrev text : List ℕ
text = 1 ∷ 2 ∷ 3 ∷ 4 ∷ 5 ∷ []

-- A reassembler that has four bytes of nine.
abbrev halfway : Reassembler
halfway = record { buf = 1 ∷ 2 ∷ 3 ∷ 4 ∷ []; declared = some 9 }

-- The rest of them, in a fragment that says it is the last.
abbrev ending : Fragment
ending = record { flags = 0; declared_len = none; bytes = text }

halfway-IsBounded : IsBounded halfway
halfway-IsBounded = record { room = ground arith }

parse-encode_example :
    Packet.parse ((2 ∷ 7 ∷ 0 ∷ 9 ∷ text) ++ (0 ∷ 0 ∷ []))
    ≡ ok (record { code = response; identifier = 7; payload = text })
unfolding encode code_byte u16_bytes
parse-encode_example = parse-encode response 7 text (0 ∷ 0 ∷ []) (2 ∷ 7 ∷ 0 ∷ 9 ∷ text) refl

abbrev waiting : Exchange
waiting = record {
  inbound = halfway;
  outbound = record { pending = []; sent = 0; fragment_size = 2 };
  base_flags = 1;
  mirror_version = true;
}

waiting-IsSafe : IsSafe waiting
waiting-IsSafe = record { holds = halfway-IsBounded; sends = omega arith }

on_request-Returns_example : Returns (on_request waiting (0x40 ∷ 9 ∷ []))
on_request-Returns_example = on_request-Returns waiting (0x40 ∷ 9 ∷ []) waiting-IsSafe

abbrev sending : Exchange
sending = record {
  inbound = halfway;
  outbound = record { pending = []; sent = 0; fragment_size = 2 };
  base_flags = 1;
  mirror_version = false;
}

abbrev listening : Exchange
listening = record {
  inbound = new_reassembler;
  outbound = record { pending = 8 ∷ []; sent = 1; fragment_size = 3 };
  base_flags = 1;
  mirror_version = true;
}

deliver_lem_example : deliver 5 sending listening text ≡ some text
unfolding all_sent
deliver_lem_example =
    deliver_lem text sending listening (omega arith) refl refl refl (omega arith) (omega arith)
      (omega arith)
