-- ===== src/Eap/Frag.antt =====
-- Fragmentation for the TLS-based EAP methods (crates/caw-eapol/src/eap/frag.rs).
pub mod Bounds
pub mod Pieces
pub mod Steps
pub mod Transfer
use caw.Prelude.{
  ℕ, suc, ◌+◌, ◌-◌, ◌/◌, ◌%◌, Bool, true, false, not, ◌&&◌, ◌||◌, List, [], ◌∷◌, ◌++◌, ◌==◌, ltb,
  leb, if◌then◌else◌, Option, none, some, Result, ok, err, ◌>>=◌, length, take, drop, is_empty, min,
  max, bit_and, bit_or,
}
use caw.Prelude.Words.{be_u32, u32_bytes, u32_max}
use caw.Eap.Error.{Error, malformed, fragment_out_of_order, fragment_too_large}

abbrev pub flag_length_included : ℕ
flag_length_included = 0x80

abbrev pub flag_more_fragments : ℕ
flag_more_fragments = 0x40

abbrev pub flag_start : ℕ
flag_start = 0x20

abbrev pub version_mask : ℕ
version_mask = 0x07

abbrev pub max_tls_message : ℕ
max_tls_message = 65_536

pub record Fragment : Type 0 where
  pub flags : ℕ
  pub declared_len : Option ℕ
  pub bytes : List ℕ

abbrev pub has_flag : ℕ → ℕ → Bool
has_flag flags flag = not (bit_and flags flag == 0)

-- The length field, which `split_at_checked(4)` takes off.
unfoldable pub parse_length : ℕ → List ℕ → Result Fragment Error
parse_length flags (a ∷ b ∷ c ∷ d ∷ rest) =
    ok (record { flags = flags; declared_len = some (be_u32 a b c d); bytes = rest })
parse_length flags _ = err malformed

unfoldable pub parse : List ℕ → Result Fragment Error
parse [] = err malformed
parse (flags ∷ rest) =
    if has_flag flags flag_length_included
    then parse_length flags rest
    else ok (record { flags = flags; declared_len = none; bytes = rest })

unfoldable pub more : Fragment → Bool
more f = has_flag f.flags flag_more_fragments

unfoldable pub start : Fragment → Bool
start f = has_flag f.flags flag_start

unfoldable pub version : Fragment → ℕ
version f = bit_and f.flags version_mask

pub record Reassembler : Type 0 where
  pub buf : List ℕ
  pub declared : Option ℕ

abbrev pub new_reassembler : Reassembler
new_reassembler = record { buf = []; declared = none }

abbrev is_some : Option ℕ → Bool
is_some none = false
is_some (some _) = true

unfoldable pub in_progress : Reassembler → Bool
in_progress r = is_some r.declared || not (is_empty r.buf)

unfoldable pub reset : Reassembler → Reassembler
reset r = record r { buf = []; declared = none }

-- The checks on a fragment before its bytes are taken, with the length it declares.
unfoldable pub open_message : Reassembler → Fragment → Option ℕ → Result Reassembler Error
open_message r f (some declared) =
    if in_progress r
    then err fragment_out_of_order
    else if ltb max_tls_message declared
    then err fragment_too_large
    else ok (record r { declared = some declared })
open_message r f none = if not (in_progress r) && more f then err fragment_out_of_order else ok r

abbrev ceiling : Option ℕ → ℕ
ceiling (some declared) = declared
ceiling none = max_tls_message

-- A total that is not the declared length.
abbrev falls_short : Option ℕ → ℕ → Bool
falls_short (some declared) len = not (len == declared)
falls_short none len = false

unfoldable pub absorb : Reassembler → Fragment → Reassembler × Result (Option (List ℕ)) Error
absorb r f =
    let r' : Reassembler = record r { buf = r.buf ++ f.bytes } in
    if ltb (ceiling r'.declared) (length r'.buf)
    then (reset r', err fragment_too_large)
    else if more f
    then (r', ok none)
    else if falls_short r'.declared (length r'.buf)
    then (reset r', err fragment_too_large)
    else (record r' { buf = []; declared = none }, ok (some r'.buf))

unfoldable pub push : Reassembler → Fragment → Reassembler × Result (Option (List ℕ)) Error
push r f = elim (open_message r f f.declared_len) [ err e ↦ (r, err e) | ok r' ↦ absorb r' f ]

pub record Fragmenter : Type 0 where
  pub pending : List ℕ
  pub sent : ℕ
  pub fragment_size : ℕ

unfoldable pub new_fragmenter : ℕ → Fragmenter
new_fragmenter size = record { pending = []; sent = 0; fragment_size = max size 1 }

unfoldable pub queue : Fragmenter → List ℕ → Fragmenter
queue g message = record g { pending = message; sent = 0 }

unfoldable pub all_sent : Fragmenter → Bool
all_sent g = leb (length g.pending) g.sent

-- The bytes of one fragment; `none` is the panic of `u32::try_from` on a total past u32.
unfoldable pub fragment_bytes : ℕ → Bool → ℕ → List ℕ → Option (List ℕ)
fragment_bytes flags include_len total chunk =
    if include_len
    then (if ltb u32_max total
        then none
        else some (bit_or flags flag_length_included ∷ (u32_bytes total ++ chunk)))
    else some (flags ∷ chunk)

-- `Some(None)`-like: the outer `none` is a panic, the inner one that nothing is left to send.
unfoldable pub next : Fragmenter → ℕ → Option (Fragmenter × Option (List ℕ))
next g base_flags =
    let first = g.sent == 0 in
    let end = min (g.sent + g.fragment_size) (length g.pending) in
    let chunk = take (end - g.sent) (drop g.sent g.pending) in
    let more_left = ltb end (length g.pending) in
    let flags = if more_left then bit_or base_flags flag_more_fragments else base_flags in
    if all_sent g
    then some (g, none)
    else elim (fragment_bytes flags (first && more_left) (length g.pending) chunk) [
      | none ↦ none
      | some out ↦ some (record g { sent = end }, some out)
    ]
