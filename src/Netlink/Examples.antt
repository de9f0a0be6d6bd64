-- ===== src/Netlink/Examples.antt =====
-- An `eth0` attribute, and a dump in two datagrams (crates/caw-netlink/src/lib.rs).
use caw.Prelude.{ℕ, ◌+◌, ◌<◌, List, [], ◌∷◌, ◌≡◌, refl, ok, arith, length, true, some}
use caw.Prelude.Utf8.{is_utf8}
use caw.Netlink.{
  Message, Attr, parse, attrs, u16_at, u32_at, u16_ne, u32_ne, pad, header, new, attr, finish,
  str_of, before_nul,
}
use caw.Netlink.Parsed.{IsMessage}
use caw.Netlink.Built.{with_attrs, build, built, parse-build}
use caw.Netlink.Request.{Handled, handled, returned, request, is_multi, after}
use caw.Netlink.Request.Exchange.{datagrams}
use caw.Netlink.Request.Dump.{IsPart, request-dump}

abbrev name : Attr
name = record { kind = 3; payload = 101 ∷ 116 ∷ 104 ∷ 48 ∷ 0 ∷ [] }

name_is_eth0 : str_of name ≡ some (101 ∷ 116 ∷ 104 ∷ 48 ∷ [])
unfolding str_of before_nul is_utf8
name_is_eth0 = refl

abbrev link : List ℕ
link =
    28 ∷ 0 ∷ 0 ∷ 0 ∷ 18 ∷ 0 ∷ 1 ∷ 0 ∷ 7 ∷ 0 ∷ 0 ∷ 0 ∷ 0 ∷ 0 ∷ 0 ∷ 0 ∷ 9 ∷ 0 ∷ 3 ∷ 0 ∷ 101 ∷ 116
    ∷ 104 ∷ 48 ∷ 0 ∷ 0 ∷ 0 ∷ 0 ∷ []

parse-build_example :
    (parse true link ≡ ok (built true 18 1 7 [] (name ∷ [])))
    × (attrs true (built true 18 1 7 [] (name ∷ [])) 0 ≡ name ∷ [])
unfolding u16_ne u32_ne pad header new attr finish with_attrs build
parse-build_example =
    parse-build true 18 1 7 [] (name ∷ []) (omega arith) (omega arith) (omega arith)
      (record { kind_fits = omega arith; length_fits = omega arith }, tt) (omega arith)

-- Parts of a dump, a stray message, and the message that ends the dump.
abbrev part : ℕ → Message
part n = record { len = 18; kind = 16; flags = 2; seq = 7; pid = 5; payload = n ∷ n ∷ [] }

abbrev stray : Message
stray = record { len = 16; kind = 3; flags = 2; seq = 6; pid = 5; payload = [] }

abbrev last : Message
last = record { len = 16; kind = 3; flags = 2; seq = 7; pid = 5; payload = [] }

abbrev count : Message → ℕ → Handled ℕ
count m n = handled (n + length m.payload)

part-IsMessage : (n : ℕ) → IsMessage (part n)
part-IsMessage n = record {
  len_exact = refl;
  len_fits = omega arith;
  kind_fits = omega arith;
  flags_fits = omega arith;
  seq_fits = omega arith;
  pid_fits = omega arith;
}

ending-IsMessage : (seq : ℕ) → seq < 8 → IsMessage (record last { seq = seq })
ending-IsMessage seq small = record {
  len_exact = refl;
  len_fits = omega arith;
  kind_fits = omega arith;
  flags_fits = omega arith;
  seq_fits = omega arith;
  pid_fits = omega arith;
}

part-IsPart : (n : ℕ) → IsPart (part n)
unfolding is_multi
part-IsPart n = record { multi = refl; family = omega arith }

request-dump_example :
    request true count
      (ok 28)
      link
      0
      (datagrams true ((part 1 ∷ stray ∷ []) ∷ (part 2 ∷ last ∷ part 3 ∷ []) ∷ []))
    ≡ returned 4
unfolding u32_at u16_at after
request-dump_example =
    request-dump true count link 0 ((part 1 ∷ stray ∷ []) ∷ (part 2 ∷ last ∷ part 3 ∷ []) ∷ [])
      (part 1 ∷ part 2 ∷ []) (part 3 ∷ []) last (omega arith)
      (
        (part-IsMessage 1, (ending-IsMessage 6 (omega arith), tt)),
        ((part-IsMessage 2, (ending-IsMessage 7 (omega arith), (part-IsMessage 3, tt))), tt),
      )
      refl (part-IsPart 1, (part-IsPart 2, tt)) refl
