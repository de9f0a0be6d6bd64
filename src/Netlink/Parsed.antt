-- ===== src/Netlink/Parsed.antt =====
-- The bytes of a message are read back (crates/caw-netlink/src/lib.rs, `Message::parse`).
use caw.Prelude.{
  ℕ, ◌+◌, ◌-◌, Bool, List, ◌++◌, ◌≡◌, refl, arith, ok, length, length-append, take-append,
  le→not_ltb,
}
use caw.Prelude.Words.{IsU16, IsU32}
use caw.Netlink.{Message, parse}
use caw.Netlink.Words.{
  message_bytes, len_at, message_bytes-append, kind_at, flags_at, seq_at, pid_at, drop_header,
  length-message_bytes, len_at, message_bytes-append,
}

-- The fields are words, and the length is the header's and the payload's.
pub record IsMessage (m : Message) : Type 0 where
  pub len_exact : m.len ≡ 16 + length m.payload
  pub len_fits : IsU32 m.len
  pub kind_fits : IsU16 m.kind
  pub flags_fits : IsU16 m.flags
  pub seq_fits : IsU32 m.seq
  pub pid_fits : IsU32 m.pid

module _ (little : Bool) where
  -- A message that fits its fields, with the bytes behind it.
  pub parse-message_bytes :
      (m : Message) (rest : List ℕ)
      → IsMessage m
      → parse little (message_bytes little m.len m.kind m.flags m.seq m.pid m.payload ++ rest)
        ≡ ok m
  unfolding parse
  parse-message_bytes m rest fits =
      let len : ℕ = m.len in
      let kind : ℕ = m.kind in
      let flags : ℕ = m.flags in
      let seq : ℕ = m.seq in
      let pid : ℕ = m.pid in
      let all : List ℕ = m.payload ++ rest in
      let whole : length (message_bytes little len kind flags seq pid all)
          ≡ 16 + (length m.payload + length rest) =
        omega (
          arith,
          length-message_bytes len kind flags seq pid all little,
          length-append m.payload rest,
        ) in
      let size : length m.payload ≡ len - 16 = omega (arith, fits.len_exact) in
      rw
        (
          message_bytes-append len kind flags seq pid m.payload rest little,
          len_at len kind flags seq pid all little fits.len_fits,
          kind_at len kind flags seq pid all little fits.kind_fits,
          flags_at len kind flags seq pid all little fits.flags_fits,
          seq_at len kind flags seq pid all little fits.seq_fits,
          pid_at len kind flags seq pid all little fits.pid_fits,
          drop_header len kind flags seq pid all little,
          take-append (len - 16) m.payload rest size,
          le→not_ltb (length (message_bytes little len kind flags seq pid all)) 16 (omega arith),
          le→not_ltb len 16 (omega (arith, fits.len_exact)),
          le→not_ltb (length (message_bytes little len kind flags seq pid all)) len
              (omega (arith, fits.len_exact)),
        )
        refl
