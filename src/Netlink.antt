-- ===== src/Netlink.antt =====
-- The netlink codec (crates/caw-netlink/src/lib.rs). Words are in the byte order of the machine:
-- `little` says which.
pub mod Words
pub mod Attrs
pub mod Parsed
pub mod Built
pub mod Request
mod Examples
use caw.Prelude.Utf8.{is_utf8}
use caw.Prelude.{
  ℕ, zero, suc, ◌+◌, ◌-◌, ◌*◌, ◌/◌, ◌%◌, Bool, true, false, ◌||◌, ◌&&◌, List, [], ◌∷◌, ◌++◌, ltb,
  ◌==◌, if◌then◌else◌, Option, none, some, Result, ok, err, length, take, drop, slice, get_or, min,
  replicate,
}

abbrev pub hdr_len : ℕ
hdr_len = 16

abbrev pub attr_hdr_len : ℕ
attr_hdr_len = 4

-- `(len + 3) & !3`
abbrev pub align : ℕ → ℕ
align len = (len + 3) / 4 * 4

-- `from_ne_bytes` and `to_ne_bytes`, at an offset.
unfoldable pub u16_at : Bool → ℕ → List ℕ → ℕ
u16_at true i bytes = get_or bytes i 0 + get_or bytes (i + 1) 0 * 256
u16_at false i bytes = get_or bytes i 0 * 256 + get_or bytes (i + 1) 0

unfoldable pub u32_at : Bool → ℕ → List ℕ → ℕ
u32_at true i bytes = u16_at true i bytes + u16_at true (i + 2) bytes * 65_536
u32_at false i bytes = u16_at false i bytes * 65_536 + u16_at false (i + 2) bytes

unfoldable pub u16_ne : Bool → ℕ → List ℕ
u16_ne true n = n % 256 ∷ n / 256 % 256 ∷ []
u16_ne false n = n / 256 % 256 ∷ n % 256 ∷ []

unfoldable pub u32_ne : Bool → ℕ → List ℕ
u32_ne true n = u16_ne true (n % 65_536) ++ u16_ne true (n / 65_536)
u32_ne false n = u16_ne false (n / 65_536) ++ u16_ne false (n % 65_536)

-- A kernel error holds its number as a word.
pub data Error : Type 0 where
  truncated short_send overrun : Error
  io kernel : ℕ → Error

pub record Message : Type 0 where
  pub len : ℕ
  pub kind : ℕ
  pub flags : ℕ
  pub seq : ℕ
  pub pid : ℕ
  pub payload : List ℕ

pub record Attr : Type 0 where
  pub kind : ℕ
  pub payload : List ℕ

-- `while !buf.len().is_multiple_of(4) { buf.push(0) }`
unfoldable pub pad : List ℕ → List ℕ
pad buf = buf ++ replicate (align (length buf) - length buf) 0

-- The bytes before the first NUL.
unfoldable pub before_nul : List ℕ → Option (List ℕ)
before_nul [] = none
before_nul (b ∷ rest) =
    let later = before_nul rest in
    if b == 0 then some [] else elim later [ none ↦ none | some front ↦ some (b ∷ front) ]

unfoldable pub str_of : Attr → Option (List ℕ)
str_of a = elim (before_nul a.payload) [
  | none ↦ none
  | some text ↦ if is_utf8 text then some text else none
]

-- `Socket::next_seq`
unfoldable pub next_seq : ℕ → ℕ
next_seq seq = (seq + 1) % 4_294_967_296

-- What an iterator's round yields, before the rounds that follow.
unfoldable pub yielded : (List ℕ → List Attr) → Option (Attr × List ℕ) → List Attr
yielded later none = []
yielded later (some (a, behind)) = a ∷ later behind

module _ (little : Bool) where
  unfoldable pub parse : List ℕ → Result Message Error
  parse buf =
      let len = u32_at little 0 buf in
      if ltb (length buf) hdr_len
      then err truncated
      else if ltb len hdr_len || ltb (length buf) len
      then err truncated
      else ok (record {
        len = len;
        kind = u16_at little 4 buf;
        flags = u16_at little 6 buf;
        seq = u32_at little 8 buf;
        pid = u32_at little 12 buf;
        payload = slice hdr_len len buf;
      })

  -- `Attrs::next`: the attribute, and the stream behind it.
  unfoldable pub next : List ℕ → Option (Attr × List ℕ)
  next rest =
      let len = u16_at little 0 rest in
      if ltb (length rest) attr_hdr_len
      then none
      else if ltb len attr_hdr_len || ltb (length rest) len
      then none
      else some (
        record { kind = u16_at little 2 rest; payload = slice attr_hdr_len len rest },
        drop (min (align len) (length rest)) rest,
      )

  -- All that the iterator yields; a round takes at least four bytes.
  unfoldable pub collect : ℕ → List ℕ → List Attr
  collect zero rest = []
  collect (suc fuel) rest = yielded (collect fuel) (next rest)

  unfoldable pub attrs : Message → ℕ → List Attr
  attrs msg family_header_len =
      let rest = drop (min (align family_header_len) (length msg.payload)) msg.payload in
      collect (length rest) rest

  unfoldable pub u32_of : Attr → Option ℕ
  u32_of a = if ltb (length a.payload) 4 then none else some (u32_at little 0 a.payload)

  unfoldable pub u8_of : Attr → Option ℕ
  u8_of a = first_of a.payload
    where
      first_of : List ℕ → Option ℕ
      first_of [] = none
      first_of (b ∷ rest) = some b

  -- `MsgBuilder`: the buffer so far, with the length still open.
  unfoldable pub new : ℕ → ℕ → ℕ → List ℕ
  new kind flags seq =
      u32_ne little 0
      ++ (u16_ne little kind ++ (u16_ne little flags ++ (u32_ne little seq ++ u32_ne little 0)))

  unfoldable pub header : List ℕ → List ℕ → List ℕ
  header buf bytes = pad (buf ++ bytes)

  unfoldable pub attr : List ℕ → ℕ → List ℕ → List ℕ
  attr buf kind bytes = pad (
      buf
      ++ (u16_ne little ((attr_hdr_len + length bytes) % 65_536) ++ (u16_ne little kind ++ bytes)))

  unfoldable pub attr_u32 : List ℕ → ℕ → ℕ → List ℕ
  attr_u32 buf kind value = attr buf kind (u32_ne little value)

  unfoldable pub attr_str : List ℕ → ℕ → List ℕ → List ℕ
  attr_str buf kind value = attr buf kind (value ++ (0 ∷ []))

  unfoldable pub finish : List ℕ → List ℕ
  finish buf = u32_ne little (length buf % 4_294_967_296) ++ drop 4 buf
