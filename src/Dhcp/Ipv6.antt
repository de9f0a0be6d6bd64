-- ===== src/Dhcp/Ipv6.antt =====
-- Router advertisements and SLAAC addresses (crates/caw-dhcp/src/ipv6.rs). An `Ipv6Addr` is the list
-- of its 16 octets.
pub mod Options
pub mod Slaac
mod Examples
use caw.Prelude.{
  ℕ, zero, suc, ◌+◌, ◌-◌, ◌*◌, ◌%◌, ◌/◌, Bool, true, false, not, ◌||◌, List, [], ◌∷◌, ◌++◌, ◌==◌,
  ltb, if◌then◌else◌, Option, none, some, Result, ok, err, ◌>>=◌, ◌>>◌, fail_if, length, take, drop,
  is_empty, find, bit_and, bit_xor,
}
use caw.Prelude.Words.{be_u16, be_u32}
use caw.Dhcp.Addr.{Error, malformed}

abbrev pub router_advertisement : ℕ
router_advertisement = 134

abbrev pub opt_prefix_info : ℕ
opt_prefix_info = 3

abbrev pub opt_rdnss : ℕ
opt_rdnss = 25

abbrev pub flag_managed : ℕ
flag_managed = 0x80

abbrev pub flag_other : ℕ
flag_other = 0x40

abbrev pub prefix_on_link : ℕ
prefix_on_link = 0x80

abbrev pub prefix_autonomous : ℕ
prefix_autonomous = 0x40

abbrev pub Ipv6Addr : Type 0
Ipv6Addr = List ℕ

-- `[u8; 6]`
pub record Mac : Type 0 where
  pub m0 : ℕ
  pub m1 : ℕ
  pub m2 : ℕ
  pub m3 : ℕ
  pub m4 : ℕ
  pub m5 : ℕ

pub record PrefixInfo : Type 0 where
  pub prefix : Ipv6Addr
  pub prefix_len : ℕ
  pub on_link : Bool
  pub autonomous : Bool
  pub valid_lifetime : ℕ
  pub preferred_lifetime : ℕ

pub record RouterAdvert : Type 0 where
  pub hop_limit : ℕ
  pub managed : Bool
  pub other_config : Bool
  pub router_lifetime : ℕ
  pub reachable_time : ℕ
  pub retrans_timer : ℕ
  pub prefixes : List PrefixInfo
  pub dns : List Ipv6Addr

abbrev pub is_set : ℕ → ℕ → Bool
is_set flags flag = not (bit_and flags flag == 0)

unfoldable pub prefix_info : List ℕ → Result PrefixInfo Error
prefix_info (_ ∷ _ ∷ len ∷ flags ∷ v0 ∷ v1 ∷ v2 ∷ v3 ∷ p0 ∷ p1 ∷ p2 ∷ p3 ∷ _ ∷ _ ∷ _ ∷ _ ∷ prefix) =
    if not (length prefix == 16) || ltb 128 len
    then err malformed
    else ok (record {
      prefix = prefix;
      prefix_len = len;
      on_link = is_set flags prefix_on_link;
      autonomous = is_set flags prefix_autonomous;
      valid_lifetime = be_u32 v0 v1 v2 v3;
      preferred_lifetime = be_u32 p0 p1 p2 p3;
    })
prefix_info _ = err malformed

abbrev pub chunks : ℕ → List ℕ → List Ipv6Addr
chunks zero xs = []
chunks (suc n) xs = take 16 xs ∷ chunks n (drop 16 xs)

-- `as_chunks::<16>().0`: the whole chunks of 16 octets.
abbrev pub as_chunks : List ℕ → List Ipv6Addr
as_chunks xs = chunks (length xs / 16) xs

unfoldable pub rdnss : List ℕ → Result (List Ipv6Addr) Error
rdnss opt =
    let addrs = drop 8 opt in
    if ltb (length opt) 8
    then err malformed
    else if is_empty addrs || not (length addrs % 16 == 0)
    then err malformed
    else ok (as_chunks addrs)

-- One option of the advertisement, by its type.
unfoldable pub take_option : RouterAdvert → ℕ → List ℕ → Result RouterAdvert Error
take_option advert kind opt =
    if kind == opt_prefix_info
    then (do p ← prefix_info opt; ok (record advert { prefixes = advert.prefixes ++ (p ∷ []) }))
    else if kind == opt_rdnss
    then (do addrs ← rdnss opt; ok (record advert { dns = advert.dns ++ addrs }))
    else ok advert

-- The loop over the options that are left, on fuel.
unfoldable pub decode_options : ℕ → RouterAdvert → List ℕ → Result RouterAdvert Error
decode_options fuel advert [] = ok advert
decode_options zero advert (kind ∷ rest) = err malformed
decode_options (suc fuel) advert (kind ∷ []) = err malformed
decode_options (suc fuel) advert (kind ∷ units ∷ rest) = do
  let len = units * 8
  let buf = kind ∷ units ∷ rest
  fail_if (len == 0) malformed
  fail_if (ltb (length buf) len) malformed
  advert' ← take_option advert kind (take len buf)
  decode_options fuel advert' (drop len buf)

unfoldable pub decode : List ℕ → Result RouterAdvert Error
decode
      (kind ∷ code ∷ _ ∷ _ ∷ hop ∷ flags ∷ l0 ∷ l1 ∷ r0 ∷ r1 ∷ r2 ∷ r3 ∷ t0 ∷ t1 ∷ t2 ∷ t3 ∷ rest) =
    if not (kind == router_advertisement) || not (code == 0)
    then err malformed
    else decode_options (length rest)
        (record {
          hop_limit = hop;
          managed = is_set flags flag_managed;
          other_config = is_set flags flag_other;
          router_lifetime = be_u16 l0 l1;
          reachable_time = be_u32 r0 r1 r2 r3;
          retrans_timer = be_u32 t0 t1 t2 t3;
          prefixes = [];
          dns = [];
        })
        rest
decode _ = err malformed

unfoldable pub autonomous_prefix : RouterAdvert → Option PrefixInfo
autonomous_prefix advert = find (λ p. p.autonomous) advert.prefixes

unfoldable pub eui64_interface_id : Mac → List ℕ
eui64_interface_id mac =
    bit_xor mac.m0 2 ∷ mac.m1 ∷ mac.m2 ∷ 0xff ∷ 0xfe ∷ mac.m3 ∷ mac.m4 ∷ mac.m5 ∷ []

unfoldable pub slaac_address : Ipv6Addr → ℕ → Mac → Option Ipv6Addr
slaac_address prefix prefix_len mac =
    if not (prefix_len == 64) then none else some (take 8 prefix ++ eui64_interface_id mac)

unfoldable pub slaac : PrefixInfo → Mac → Option Ipv6Addr
slaac p mac = if p.autonomous then slaac_address p.prefix p.prefix_len mac else none
