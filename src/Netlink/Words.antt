-- ===== src/Netlink/Words.antt =====
-- Words in the machine's byte order (crates/caw-netlink/src/lib.rs).
use caw.Prelude.{
  ℕ, drop, ◌+◌, ◌-◌, Bool, true, false, List, ◌++◌, ◌≡◌, refl, arith, length, length-append,
  length-replicate, replicate,
}
use caw.Prelude.Words.{IsU16, IsU32}
use caw.Netlink.{u16_at, u32_at, u16_ne, u32_ne, pad, align}

pub u16_at-ne :
    (little : Bool) (n : ℕ) (rest : List ℕ)
    → IsU16 n
    → u16_at little 0 (u16_ne little n ++ rest) ≡ n
unfolding u16_at u16_ne
u16_at-ne true n rest h = omega arith
u16_at-ne false n rest h = omega arith

pub u32_at-ne :
    (little : Bool) (n : ℕ) (rest : List ℕ)
    → IsU32 n
    → u32_at little 0 (u32_ne little n ++ rest) ≡ n
unfolding u32_at u32_ne u16_at u16_ne
u32_at-ne true n rest h = omega arith
u32_at-ne false n rest h = omega arith

pub length-u16_ne : (little : Bool) (n : ℕ) → length (u16_ne little n) ≡ 2
unfolding u16_ne
length-u16_ne true n = refl
length-u16_ne false n = refl

pub length-u32_ne : (little : Bool) (n : ℕ) → length (u32_ne little n) ≡ 4
unfolding u32_ne u16_ne
length-u32_ne true n = refl
length-u32_ne false n = refl

pub length-pad : (buf : List ℕ) → length (pad buf) ≡ align (length buf)
unfolding pad
length-pad buf = omega (
  arith,
  length-append buf (replicate (align (length buf) - length buf) 0),
  length-replicate {A = ℕ} (align (length buf) - length buf) 0,
)

-- The second word of two.
pub u16_at-second :
    (little : Bool) (m n : ℕ) (rest : List ℕ)
    → IsU16 n
    → u16_at little 2 (u16_ne little m ++ (u16_ne little n ++ rest)) ≡ n
unfolding u16_at u16_ne
u16_at-second true m n rest h = omega arith
u16_at-second false m n rest h = omega arith

-- A header and what follows it.
abbrev pub message_bytes : Bool → ℕ → ℕ → ℕ → ℕ → ℕ → List ℕ → List ℕ
message_bytes little len kind flags seq pid payload =
    u32_ne little len
    ++ (u16_ne little kind
        ++ (u16_ne little flags ++ (u32_ne little seq ++ (u32_ne little pid ++ payload))))

module _ (len kind flags seq pid : ℕ) (payload : List ℕ) where
  pub kind_at :
      (little : Bool)
      → IsU16 kind
      → u16_at little 4 (message_bytes little len kind flags seq pid payload) ≡ kind
  unfolding u16_at u16_ne u32_ne
  kind_at true h = omega arith
  kind_at false h = omega arith

  pub flags_at :
      (little : Bool)
      → IsU16 flags
      → u16_at little 6 (message_bytes little len kind flags seq pid payload) ≡ flags
  unfolding u16_at u16_ne u32_ne
  flags_at true h = omega arith
  flags_at false h = omega arith

  pub seq_at :
      (little : Bool)
      → IsU32 seq
      → u32_at little 8 (message_bytes little len kind flags seq pid payload) ≡ seq
  unfolding u32_at u16_at u16_ne u32_ne
  seq_at true h = omega arith
  seq_at false h = omega arith

  pub pid_at :
      (little : Bool)
      → IsU32 pid
      → u32_at little 12 (message_bytes little len kind flags seq pid payload) ≡ pid
  unfolding u32_at u16_at u16_ne u32_ne
  pid_at true h = omega arith
  pid_at false h = omega arith

  pub drop_header :
      (little : Bool) → drop 16 (message_bytes little len kind flags seq pid payload) ≡ payload
  unfolding u16_ne u32_ne
  drop_header true = refl
  drop_header false = refl

  pub length-message_bytes :
      (little : Bool)
      → length (message_bytes little len kind flags seq pid payload) ≡ 16 + length payload
  unfolding u16_ne u32_ne
  length-message_bytes true = omega arith
  length-message_bytes false = omega arith

  pub len_at :
      (little : Bool)
      → IsU32 len
      → u32_at little 0 (message_bytes little len kind flags seq pid payload) ≡ len
  len_at little h =
      u32_at-ne little len
        (u16_ne little kind
          ++ (u16_ne little flags ++ (u32_ne little seq ++ (u32_ne little pid ++ payload))))
        h

  pub message_bytes-append :
      (rest : List ℕ) (little : Bool)
      → message_bytes little len kind flags seq pid payload ++ rest
        ≡ message_bytes little len kind flags seq pid (payload ++ rest)
  unfolding u16_ne u32_ne
  message_bytes-append rest true = refl
  message_bytes-append rest false = refl
