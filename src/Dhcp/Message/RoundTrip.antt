-- ===== src/Dhcp/Message/RoundTrip.antt =====
-- A message that is encoded and decoded again (crates/caw-dhcp/src/message.rs).
use caw.Prelude.{
  ℕ, ◌+◌, ◌≤◌, ◌≡◌, refl, ap, ◌∙◌, true, false, List, [], ◌++◌, append_assoc, ok, length, drop,
  slice, replicate, drop-append, length-append, All, arith, ltb, le→not_ltb,
}
use caw.Prelude.Words.{IsU16, IsU32, bytes_eq, bytes_eq_self, u32_bytes, u16_bytes}
use caw.Dhcp.Options.{DhcpOption}
use caw.Dhcp.Options.RoundTrip.{IsEncodable}
use caw.Dhcp.Area.{decode_into, encode_all}
use caw.Dhcp.Area.RoundTrip.{encode_all-append, decode_into-encode_all}
use caw.Dhcp.Message.{
  Message, magic_cookie, fixed_len, head_bytes, decode_fields, text_out, text_field, pad_to_min,
  encode, decode, overloaded_field,
}
use caw.Dhcp.Message.Fields.{
  FitsField, text_bytes, text_out_lem, length-text_bytes, text_field-bytes, cut, decode_fields-head,
}

-- A message that its own encoding can say.
pub record IsEncodableMessage (m : Message) : Type 0 where
  pub word_xid : IsU32 m.xid
  pub word_secs : IsU16 m.secs
  pub word_flags : IsU16 m.flags
  pub chaddr_len : length m.chaddr ≡ 16
  pub fits_sname : FitsField 64 m.sname
  pub fits_file : FitsField 128 m.file
  pub encodable : All IsEncodable m.options

-- The bytes of a message in front of `tail`.
abbrev laid_out : Message → List ℕ → List ℕ
laid_out m tail =
    head_bytes m
    ++ (m.chaddr
        ++ (text_bytes m.sname 64
            ++ (text_bytes m.file 128 ++ (magic_cookie ++ (encode_all m.options [] ++ tail)))))

-- What `decode` answers, given the cookie and an area that declares no overload.
decode_of_parts :
    (buf : List ℕ) (os : List DhcpOption)
    → 240 ≤ length buf
    → slice 236 240 buf ≡ magic_cookie
    → decode_into (drop 240 buf) [] ≡ ok (0, os)
    → decode buf
      ≡ ok (decode_fields buf (text_field (slice 44 108 buf)) (text_field (slice 108 236 buf)) os)
unfolding decode overloaded_field
decode_of_parts buf os h hc ho =
    let long : ltb (length buf) (fixed_len + 4) ≡ false = le→not_ltb _ _ h in
    let same : bytes_eq (slice 236 240 buf) magic_cookie ≡ true =
      rw hc (bytes_eq_self magic_cookie) in
    rw (long, same, ho)

module _ (m : Message) (h : IsEncodableMessage m) where
  parts_of_encode :
      (tail : List ℕ)
      → encode_all m.options
            (text_out (text_out (head_bytes m ++ m.chaddr) m.sname 64) m.file 128 ++ magic_cookie)
          ++ tail
        ≡ laid_out m tail
  parts_of_encode tail =
      rw
        (
          text_out_lem (head_bytes m ++ m.chaddr) m.sname 64 h.fits_sname.short,
          text_out_lem _ m.file 128 h.fits_file.short,
          encode_all-append m.options _ h.encodable,
        )
        (simp append_assoc)

  -- The encoding is the parts in their order, and zeros up to the least length.
  pub encode-laid_out : (k : ℕ) × (encode m ≡ laid_out m (replicate k 0))
  unfolding encode pad_to_min
  encode-laid_out = (_, parts_of_encode _)

  module _ (tail : List ℕ) where
    length-head : length (head_bytes m) ≡ 28
    unfolding head_bytes u32_bytes u16_bytes
    length-head = refl

    chaddr_slice : slice 28 44 (laid_out m tail) ≡ m.chaddr
    chaddr_slice = cut 28 16 (head_bytes m) m.chaddr _ length-head h.chaddr_len

    length-to_sname : length (head_bytes m ++ m.chaddr) ≡ 44
    length-to_sname =
        omega (arith, length-append (head_bytes m) m.chaddr, length-head, h.chaddr_len)

    sname_slice : slice 44 108 (laid_out m tail) ≡ text_bytes m.sname 64
    sname_slice = rw (← append_assoc (head_bytes m) m.chaddr _) (
        cut 44 64 (head_bytes m ++ m.chaddr) (text_bytes m.sname 64) _ length-to_sname
          (length-text_bytes m.sname 64 h.fits_sname.short))

    length-to_file : length ((head_bytes m ++ m.chaddr) ++ text_bytes m.sname 64) ≡ 108
    length-to_file = omega (
      arith,
      length-append (head_bytes m ++ m.chaddr) (text_bytes m.sname 64),
      length-to_sname,
      length-text_bytes m.sname 64 h.fits_sname.short,
    )

    file_slice : slice 108 236 (laid_out m tail) ≡ text_bytes m.file 128
    file_slice =
        rw (← append_assoc (head_bytes m) m.chaddr _, ← append_assoc _ (text_bytes m.sname 64) _)
          (cut 108 128 _ (text_bytes m.file 128) _ length-to_file
            (length-text_bytes m.file 128 h.fits_file.short))

    abbrev fixed_part : List ℕ
    fixed_part = ((head_bytes m ++ m.chaddr) ++ text_bytes m.sname 64) ++ text_bytes m.file 128

    length-fixed_part : length fixed_part ≡ 236
    length-fixed_part = omega (
      arith,
      length-append ((head_bytes m ++ m.chaddr) ++ text_bytes m.sname 64) (text_bytes m.file 128),
      length-to_file,
      length-text_bytes m.file 128 h.fits_file.short,
    )

    regroup : laid_out m tail ≡ fixed_part ++ (magic_cookie ++ (encode_all m.options [] ++ tail))
    regroup = simp append_assoc

    cookie_slice : slice 236 240 (laid_out m tail) ≡ magic_cookie
    cookie_slice = rw regroup (cut 236 4 fixed_part magic_cookie _ length-fixed_part refl)

    area_behind : drop 240 (laid_out m tail) ≡ encode_all m.options [] ++ tail
    area_behind =
        rw (regroup, ← append_assoc fixed_part magic_cookie _)
          (drop-append 240 (fixed_part ++ magic_cookie) _
            (omega (arith, length-append fixed_part magic_cookie, length-fixed_part)))

    length-laid_out : 240 ≤ length (laid_out m tail)
    length-laid_out = rw regroup (
        omega (
          arith,
          length-append fixed_part (magic_cookie ++ (encode_all m.options [] ++ tail)),
          length-fixed_part,
        ))

    decode-laid_out : decode (laid_out m tail) ≡ ok m
    decode-laid_out =
        decode_of_parts (laid_out m tail) m.options length-laid_out cookie_slice
          (rw area_behind (decode_into-encode_all m.options tail [] h.encodable))
        ∙ rw
            (
              sname_slice,
              file_slice,
              text_field-bytes m.sname 64 h.fits_sname,
              text_field-bytes m.file 128 h.fits_file,
            )
            (ap ok (decode_fields-head m _ h.word_xid h.word_secs h.word_flags chaddr_slice))

  -- A message whose words fit, whose hardware address has 16 bytes, whose texts fit their fields
  -- without a NUL and whose options can each be written as one option is read back from its
  -- encoding, padding included: every field and every option.
  pub decode-encode : decode (encode m) ≡ ok m
  decode-encode = let (k, e) = encode-laid_out in rw e (decode-laid_out (replicate k 0))
