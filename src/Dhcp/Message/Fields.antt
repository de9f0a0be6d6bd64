-- ===== src/Dhcp/Message/Fields.antt =====
-- Where the parts of a message stand in its bytes (crates/caw-dhcp/src/message.rs).
use caw.Prelude.{
  ℕ, zero, suc, ◌-◌, ◌<◌, ◌≡◌, ◌≢◌, refl, true, List, [], ◌∷◌, ◌++◌, append_assoc, length, take,
  drop, slice, replicate, take-append, drop-append, length-append, length-replicate, All, arith,
  min, take_all,
}
use caw.Prelude.Words.{IsU16, IsU32, be_u16-bytes, be_u32-bytes, u16_bytes, u32_bytes}
use caw.Prelude.Utf8.{is_utf8, from_utf8_lossy_id}
use caw.Dhcp.Message.{Message, head_bytes, decode_fields, text_out, text_field, until_nul}

-- A text that fills less than its field, and holds no NUL.
pub record FitsField (width : ℕ) (value : List ℕ) : Type 0 where
  pub text : is_utf8 value ≡ true
  pub no_nul : All (λ b. b ≢ 0) value
  pub short : length value < width

-- The field that `text_out` appends.
unfoldable pub text_bytes : List ℕ → ℕ → List ℕ
text_bytes value width = value ++ replicate (width - length value) 0

pub text_out_lem :
    (buf value : List ℕ) (width : ℕ)
    → length value < width
    → text_out buf value width ≡ buf ++ text_bytes value width
unfolding text_out text_bytes
text_out_lem buf value width h =
    let len : min (length value) (width - 1) ≡ length value = omega arith in
    rw (len, take_all (length value) value (omega arith)) (append_assoc buf value _)

pub length-text_bytes :
    (value : List ℕ) (width : ℕ) → length value < width → length (text_bytes value width) ≡ width
unfolding text_bytes
length-text_bytes value width h = omega (
  arith,
  length-append value (replicate (width - length value) 0),
  length-replicate {A = ℕ} (width - length value) 0,
)

until_nul-append :
    (value rest : List ℕ) → All (λ b. b ≢ 0) value → until_nul (value ++ (0 ∷ rest)) ≡ value
unfolding until_nul
until_nul-append [] rest h = refl
until_nul-append (b ∷ value) rest (hb, hs) = ground (arith, until_nul-append value rest hs)

until_nul-text :
    (value : List ℕ) (zeros : ℕ)
    → All (λ b. b ≢ 0) value
    → 0 < zeros
    → until_nul (value ++ replicate zeros 0) ≡ value
until_nul-text value zero h p = absurd (omega arith)
until_nul-text value (suc n) h p = until_nul-append value (replicate n 0) h

-- A field that is written is read back.
pub text_field-bytes :
    (value : List ℕ) (width : ℕ)
    → FitsField width value
    → text_field (text_bytes value width) ≡ value
unfolding text_field text_bytes
text_field-bytes value width h =
    rw (until_nul-text value (width - length value) h.no_nul (omega arith))
      (from_utf8_lossy_id value h.text)

-- What stands behind `xs`, over the length of `ys`.
pub cut {ℓ} :
    {A : Type ℓ} (n k : ℕ) (xs ys zs : List A)
    → length xs ≡ n
    → length ys ≡ k
    → take k (drop n (xs ++ (ys ++ zs))) ≡ ys
cut n k xs ys zs hx hy = rw (drop-append n xs (ys ++ zs) hx) (take-append k ys zs hy)

-- The numbers and addresses of the head are read back, whatever stands behind them.
pub decode_fields-head :
    (m : Message) (tail : List ℕ)
    → IsU32 m.xid
    → IsU16 m.secs
    → IsU16 m.flags
    → slice 28 44 (head_bytes m ++ tail) ≡ m.chaddr
    → decode_fields (head_bytes m ++ tail) m.sname m.file m.options ≡ m
unfolding decode_fields head_bytes u32_bytes u16_bytes
decode_fields-head m tail hx hs hf hc =
    rw (be_u32-bytes m.xid hx, be_u16-bytes m.secs hs, be_u16-bytes m.flags hf, hc)
