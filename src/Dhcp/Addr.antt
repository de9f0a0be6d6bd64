-- ===== src/Dhcp/Addr.antt =====
-- The crate's errors, and `std::net::Ipv4Addr` as its four octets (crates/caw-dhcp/src/lib.rs).
use caw.Prelude.{ℕ, ◌/◌, ◌%◌, ◌≡◌, Bool, ◌&&◌, List, [], ◌∷◌, ◌==◌, arith}
use caw.Prelude.Words.{IsByte, IsU32, be_u32}

-- `Io` carries the errno.
pub data Error : Type 0 where
  malformed : Error
  incomplete : ℕ → Error
  nak : Error
  io : ℕ → Error
  short_send : Error

pub record Ipv4Addr : Type 0 where
  pub a : ℕ
  pub b : ℕ
  pub c : ℕ
  pub d : ℕ

-- `Ipv4Addr::new`
abbrev pub ipv4_new : ℕ → ℕ → ℕ → ℕ → Ipv4Addr
ipv4_new a b c d = record { a = a; b = b; c = c; d = d }

abbrev pub octets : Ipv4Addr → List ℕ
octets x = x.a ∷ x.b ∷ x.c ∷ x.d ∷ []

abbrev pub unspecified : Ipv4Addr
unspecified = ipv4_new 0 0 0 0

abbrev pub broadcast_addr : Ipv4Addr
broadcast_addr = ipv4_new 255 255 255 255

abbrev pub is_unspecified : Ipv4Addr → Bool
is_unspecified x = x.a == 0 && (x.b == 0 && (x.c == 0 && x.d == 0))

abbrev pub to_bits : Ipv4Addr → ℕ
to_bits x = be_u32 x.a x.b x.c x.d

abbrev pub from_bits : ℕ → Ipv4Addr
from_bits n = ipv4_new (n / 16_777_216 % 256) (n / 65_536 % 256) (n / 256 % 256) (n % 256)

-- Every octet is a byte.
pub record IsAddr (x : Ipv4Addr) : Type 0 where
  pub byte_a : IsByte x.a
  pub byte_b : IsByte x.b
  pub byte_c : IsByte x.c
  pub byte_d : IsByte x.d

pub from_bits-to_bits : (x : Ipv4Addr) → IsAddr x → from_bits (to_bits x) ≡ x
from_bits-to_bits x h = ground arith

pub to_bits-IsU32 : (x : Ipv4Addr) → IsAddr x → IsU32 (to_bits x)
to_bits-IsU32 x h = omega arith
