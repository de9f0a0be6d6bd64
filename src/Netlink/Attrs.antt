-- ===== src/Netlink/Attrs.antt =====
-- Attributes as they are written and walked (crates/caw-netlink/src/lib.rs, `attr`, `Attrs`).
use caw.Prelude.{
  ℕ, zero, suc, ◌+◌, ◌-◌, ◌%◌, ◌<◌, ◌≤◌, Bool, List, [], ◌∷◌, ◌++◌, ◌≡◌, refl, ap, arith, some,
  length, drop, slice, min, replicate, All, length-append, length-replicate, append_assoc,
  take-append, drop-append, le→not_ltb,
}
use caw.Prelude.Words.{IsU16}
use caw.Netlink.{Attr, align, attr_hdr_len, u16_at, u16_ne, pad, next, collect, yielded, attr}
use caw.Netlink.Words.{u16_at-ne, u16_at-second, length-u16_ne}

-- The kind is a word, and so is the length with the header.
pub record IsAttr (a : Attr) : Type 0 where
  pub kind_fits : IsU16 a.kind
  pub length_fits : length a.payload + 4 < 65_536

module _ (little : Bool) where
  abbrev pub head : Attr → List ℕ
  head a = u16_ne little (length a.payload + 4) ++ u16_ne little a.kind

  abbrev pub zeros : Attr → List ℕ
  zeros a = replicate (align (length a.payload + 4) - (length a.payload + 4)) 0

  -- An attribute with its padding.
  abbrev pub wire : Attr → List ℕ
  wire a = head a ++ (a.payload ++ zeros a)

  abbrev pub wires : List Attr → List ℕ
  wires [] = []
  wires (a ∷ more) = wire a ++ wires more

  length-head : (a : Attr) → length (head a) ≡ 4
  length-head a = omega (
    arith,
    length-append (u16_ne little (length a.payload + 4)) (u16_ne little a.kind),
    length-u16_ne little (length a.payload + 4),
    length-u16_ne little a.kind,
  )

  pub length-wire : (a : Attr) → length (wire a) ≡ align (length a.payload + 4)
  length-wire a = omega (
    arith,
    length-head a,
    length-append (head a) (a.payload ++ zeros a),
    length-append a.payload (zeros a),
    length-replicate {A = ℕ} (align (length a.payload + 4) - (length a.payload + 4)) 0,
  )

  len_of :
      (a : Attr) (rest : List ℕ)
      → IsAttr a
      → u16_at little 0 (wire a ++ rest) ≡ length a.payload + 4
  len_of a rest fits =
      rw
        (
          append_assoc (head a) (a.payload ++ zeros a) rest,
          append_assoc (u16_ne little (length a.payload + 4)) (u16_ne little a.kind)
              ((a.payload ++ zeros a) ++ rest),
        )
        (u16_at-ne little (length a.payload + 4) _ fits.length_fits)

  kind_of : (a : Attr) (rest : List ℕ) → IsAttr a → u16_at little 2 (wire a ++ rest) ≡ a.kind
  kind_of a rest fits =
      rw
        (
          append_assoc (head a) (a.payload ++ zeros a) rest,
          append_assoc (u16_ne little (length a.payload + 4)) (u16_ne little a.kind)
              ((a.payload ++ zeros a) ++ rest),
        )
        (u16_at-second little (length a.payload + 4) a.kind _ fits.kind_fits)

  payload_of :
      (a : Attr) (rest : List ℕ) → slice 4 (length a.payload + 4) (wire a ++ rest) ≡ a.payload
  payload_of a rest =
      let size : length a.payload ≡ length a.payload + 4 - 4 = omega arith in
      rw
        (
          append_assoc (head a) (a.payload ++ zeros a) rest,
          append_assoc a.payload (zeros a) rest,
          drop-append 4 (head a) (a.payload ++ (zeros a ++ rest)) (length-head a),
        )
        (take-append (length a.payload + 4 - 4) a.payload (zeros a ++ rest) size)

  pub next-wire :
      (a : Attr) (rest : List ℕ) → IsAttr a → next little (wire a ++ rest) ≡ some (a, rest)
  unfolding next
  next-wire a rest fits =
      let whole : length (wire a ++ rest) ≡ align (length a.payload + 4) + length rest =
        omega (arith, length-append (wire a) rest, length-wire a) in
      let behind : drop (min (align (length a.payload + 4)) (length (wire a ++ rest)))
            (wire a ++ rest)
          ≡ rest =
        drop-append (min (align (length a.payload + 4)) (length (wire a ++ rest))) (wire a) rest
          (omega (arith, length-wire a)) in
      rw
        (
          len_of a rest fits,
          kind_of a rest fits,
          payload_of a rest,
          behind,
          le→not_ltb (length (wire a ++ rest)) 4 (omega arith),
          le→not_ltb (length a.payload + 4) 4 (omega arith),
          le→not_ltb (length (wire a ++ rest)) (length a.payload + 4) (omega arith),
        )
        refl

  next_nil : (fuel : ℕ) → collect little (suc fuel) [] ≡ []
  unfolding collect next yielded
  next_nil fuel = refl

  -- The iterator yields what was written; the rounds suffice.
  pub collect-wires :
      (fuel : ℕ) (all : List Attr)
      → length (wires all) ≤ fuel
      → All IsAttr all
      → collect little fuel (wires all) ≡ all
  unfolding collect yielded
  collect-wires zero [] h fit = refl
  collect-wires zero (a ∷ more) h fit =
      absurd (omega (arith, length-append (wire a) (wires more), length-wire a))
  collect-wires (suc fuel) [] h fit = next_nil fuel
  collect-wires (suc fuel) (a ∷ more) h (fits, fit) = rw (next-wire a (wires more) fits) (
      ap (λ rest. a ∷ rest)
        (collect-wires fuel more (omega (arith, length-append (wire a) (wires more), length-wire a))
          fit))

  -- An attribute that is appended at a boundary.
  pub attr-wire :
      (buf : List ℕ) (a : Attr)
      → length buf % 4 ≡ 0
      → IsAttr a
      → attr little buf a.kind a.payload ≡ buf ++ wire a
  unfolding attr pad
  attr-wire buf a aligned fits =
      let len : (attr_hdr_len + length a.payload) % 65_536 ≡ length a.payload + 4 =
        omega (arith, fits.length_fits) in
      let raw : List ℕ =
        u16_ne little (length a.payload + 4) ++ (u16_ne little a.kind ++ a.payload) in
      let size : length (buf ++ raw) ≡ length buf + (length a.payload + 4) = omega (
        arith,
        length-append buf raw,
        length-append (u16_ne little (length a.payload + 4)) (u16_ne little a.kind ++ a.payload),
        length-append (u16_ne little a.kind) a.payload,
        length-u16_ne little (length a.payload + 4),
        length-u16_ne little a.kind,
      ) in
      let gap : align (length buf + (length a.payload + 4)) - (length buf + (length a.payload + 4))
          ≡ align (length a.payload + 4) - (length a.payload + 4) =
        omega arith in
      rw
        (
          len,
          size,
          gap,
          append_assoc buf raw (zeros a),
          append_assoc (u16_ne little (length a.payload + 4)) (u16_ne little a.kind ++ a.payload)
              (zeros a),
          append_assoc (u16_ne little a.kind) a.payload (zeros a),
          append_assoc (u16_ne little (length a.payload + 4)) (u16_ne little a.kind)
              (a.payload ++ zeros a),
        )
        refl
