-- ===== src/Netlink/Built.antt =====
-- A message that is built is read back (crates/caw-netlink/src/lib.rs, `MsgBuilder`, `Message`).
use caw.Prelude.{
  ℕ, ◌+◌, ◌-◌, ◌%◌, ◌<◌, Bool, List, [], ◌∷◌, ◌++◌, ◌≡◌, refl, ap, sym, ◌∙◌, arith, ok, length,
  drop, min, replicate, All, length-append, append_assoc, append-nil, drop-append,
}
use caw.Prelude.Words.{IsU16, IsU32}
use caw.Netlink.{Attr, Message, align, u16_ne, u32_ne, pad, attr, attrs, header, new, finish, parse}
use caw.Netlink.Words.{length-u16_ne, length-u32_ne, length-pad, message_bytes}
use caw.Netlink.Attrs.{IsAttr, wire, wires, length-wire, collect-wires, attr-wire}
use caw.Netlink.Parsed.{IsMessage, parse-message_bytes}

module _ (little : Bool) where
  -- `MsgBuilder::attr` for each of a list.
  unfoldable pub with_attrs : List ℕ → List Attr → List ℕ
  with_attrs buf [] = buf
  with_attrs buf (a ∷ more) = with_attrs (attr little buf a.kind a.payload) more

  unfoldable pub build : ℕ → ℕ → ℕ → List ℕ → List Attr → List ℕ
  build kind flags seq family_header all =
      finish little (with_attrs (header little (new little kind flags seq) family_header) all)

  with_attrs-wires :
      (buf : List ℕ) (all : List Attr)
      → length buf % 4 ≡ 0
      → All IsAttr all
      → with_attrs buf all ≡ buf ++ wires little all
  unfolding with_attrs
  with_attrs-wires buf [] aligned fit = sym (append-nil buf)
  with_attrs-wires buf (a ∷ more) aligned (fits, fit) =
      let longer : length (buf ++ wire little a) % 4 ≡ 0 =
        omega (arith, length-append buf (wire little a), length-wire little a) in
      rw (attr-wire little buf a aligned fits) (
        with_attrs-wires (buf ++ wire little a) more longer fit
        ∙ append_assoc buf (wire little a) (wires little more))

  -- The family header with its padding, and the attributes.
  abbrev pub body : List ℕ → List Attr → List ℕ
  body family_header all = pad family_header ++ wires little all

  length-new : (kind flags seq : ℕ) → length (new little kind flags seq) ≡ 16
  unfolding new
  length-new kind flags seq = omega (
    arith,
    length-append (u32_ne little 0)
        (u16_ne little kind ++ (u16_ne little flags ++ (u32_ne little seq ++ u32_ne little 0))),
    length-append (u16_ne little kind)
        (u16_ne little flags ++ (u32_ne little seq ++ u32_ne little 0)),
    length-append (u16_ne little flags) (u32_ne little seq ++ u32_ne little 0),
    length-append (u32_ne little seq) (u32_ne little 0),
    length-u32_ne little 0,
    length-u32_ne little seq,
    length-u16_ne little kind,
    length-u16_ne little flags,
  )

  header-new :
      (kind flags seq : ℕ) (family_header : List ℕ)
      → header little (new little kind flags seq) family_header
        ≡ new little kind flags seq ++ pad family_header
  unfolding header pad
  header-new kind flags seq family_header =
      let size : length (new little kind flags seq ++ family_header) ≡ 16 + length family_header =
        omega (
          arith,
          length-append (new little kind flags seq) family_header,
          length-new kind flags seq,
        ) in
      let gap : align (16 + length family_header) - (16 + length family_header)
          ≡ align (length family_header) - length family_header =
        omega arith in
      rw
        (
          size,
          gap,
          append_assoc (new little kind flags seq) family_header
              (replicate (align (length family_header) - length family_header) 0),
        )
        refl

  finish-new :
      (kind flags seq : ℕ) (rest : List ℕ)
      → 16 + length rest < 4_294_967_296
      → finish little (new little kind flags seq ++ rest)
        ≡ message_bytes little (16 + length rest) kind flags seq 0 rest
  unfolding finish new
  finish-new kind flags seq rest fits =
      let size : length (new little kind flags seq ++ rest) % 4_294_967_296 ≡ 16 + length rest =
        omega (arith, length-append (new little kind flags seq) rest, length-new kind flags seq) in
      let later : List ℕ =
        u16_ne little kind ++ (u16_ne little flags ++ (u32_ne little seq ++ u32_ne little 0)) in
      rw
        (
          size,
          append_assoc (u32_ne little 0) later rest,
          drop-append 4 (u32_ne little 0) (later ++ rest) (length-u32_ne little 0),
          append_assoc (u16_ne little kind)
              (u16_ne little flags ++ (u32_ne little seq ++ u32_ne little 0)) rest,
          append_assoc (u16_ne little flags) (u32_ne little seq ++ u32_ne little 0) rest,
          append_assoc (u32_ne little seq) (u32_ne little 0) rest,
        )
        refl

  abbrev pub built : ℕ → ℕ → ℕ → List ℕ → List Attr → Message
  built kind flags seq family_header all = record {
    len = 16 + length (body family_header all);
    kind = kind;
    flags = flags;
    seq = seq;
    pid = 0;
    payload = body family_header all;
  }

  build-message_bytes :
      (kind flags seq : ℕ) (family_header : List ℕ) (all : List Attr)
      → All IsAttr all
      → 16 + length (body family_header all) < 4_294_967_296
      → build kind flags seq family_header all
        ≡ message_bytes little
            (16 + length (body family_header all))
            kind
            flags
            seq
            0
            (body family_header all)
  unfolding build
  build-message_bytes kind flags seq family_header all fit small =
      let aligned : length (new little kind flags seq ++ pad family_header) % 4 ≡ 0 = omega (
        arith,
        length-append (new little kind flags seq) (pad family_header),
        length-new kind flags seq,
        length-pad family_header,
      ) in
      rw
        (
          header-new kind flags seq family_header,
          with_attrs-wires (new little kind flags seq ++ pad family_header) all aligned fit,
          append_assoc (new little kind flags seq) (pad family_header) (wires little all),
        )
        (finish-new kind flags seq (body family_header all) small)

  -- A message that is built (with fields that are words, attributes that fit their length field,
  -- and in all under 2^32 bytes) is parsed to its fields, and the walk over its attributes, past
  -- the family header, yields those that were appended, in their order.
  pub parse-build :
      (kind flags seq : ℕ) (family_header : List ℕ) (all : List Attr)
      → IsU16 kind
      → IsU16 flags
      → IsU32 seq
      → All IsAttr all
      → 16 + length (body family_header all) < 4_294_967_296
      → (parse little (build kind flags seq family_header all)
          ≡ ok (built kind flags seq family_header all))
        × (attrs little (built kind flags seq family_header all) (length family_header) ≡ all)
  unfolding attrs
  parse-build kind flags seq family_header all kinds words seqs fit small =
      let whole : length (body family_header all)
          ≡ align (length family_header) + length (wires little all) =
        omega
          (arith, length-append (pad family_header) (wires little all), length-pad family_header) in
      let start : drop (min (align (length family_header)) (length (body family_header all)))
            (body family_header all)
          ≡ wires little all =
        drop-append (min (align (length family_header)) (length (body family_header all)))
          (pad family_header) (wires little all) (omega (arith, length-pad family_header)) in
      let fields : IsMessage (built kind flags seq family_header all) = record {
        len_exact = refl;
        len_fits = small;
        kind_fits = kinds;
        flags_fits = words;
        seq_fits = seqs;
        pid_fits = omega arith;
      } in
      (
        rw (build-message_bytes kind flags seq family_header all fit small) (
            ap (parse little) (sym (append-nil _))
            ∙ parse-message_bytes little (built kind flags seq family_header all) [] fields),
        rw start (collect-wires little (length (wires little all)) all (omega arith) fit),
      )
