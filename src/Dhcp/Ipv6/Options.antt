-- ===== src/Dhcp/Ipv6/Options.antt =====
-- The option loop of a router advertisement against the RFC's layout
-- (crates/caw-dhcp/src/ipv6.rs, `decode`).
use caw.Prelude.{
  ℕ, zero, suc, ◌+◌, ◌*◌, ◌≤◌, ◌<◌, ◌≡◌, ◌≢◌, refl, ◌∙◌, Bool, true, false, List, [], ◌∷◌, ◌++◌,
  ◌==◌, ltb, ok, length, length-append, drop, arith, All, take-append, drop-append, le→not_ltb,
  is_empty, ◌%◌, ◌/◌, ==_iff,
}
use caw.Prelude.Words.{IsU32, IsU16, be_u32-bytes, be_u16-bytes, u16_bytes, u32_bytes}
use caw.Dhcp.Ipv6.{
  Ipv6Addr, PrefixInfo, RouterAdvert, is_set, prefix_info, chunks, as_chunks, rdnss, take_option,
  decode_options, decode, opt_prefix_info, opt_rdnss, router_advertisement, prefix_on_link,
  prefix_autonomous, flag_managed, flag_other,
}

-- The options of RFC 4861 and RFC 8106, as a router sends them. `units` is the length in eights of octets.
pub data NdOption : Type 0 where
  prefix_option : PrefixInfo → NdOption
  dns_option : ℕ → List Ipv6Addr → NdOption
  other_option : ℕ → ℕ → List ℕ → NdOption

abbrev bit : Bool → ℕ → ℕ
bit true flag = flag
bit false flag = 0

abbrev pub joined : List Ipv6Addr → List ℕ
joined [] = []
joined (a ∷ rest) = a ++ joined rest

unfoldable pub wire : NdOption → List ℕ
wire (prefix_option p) =
    opt_prefix_info
    ∷ 4
    ∷ p.prefix_len
    ∷ (bit p.on_link prefix_on_link + bit p.autonomous prefix_autonomous)
    ∷ (u32_bytes p.valid_lifetime ++ (u32_bytes p.preferred_lifetime ++ (0 ∷ 0 ∷ 0 ∷ 0 ∷ p.prefix)))
wire (dns_option lifetime addrs) =
    opt_rdnss ∷ (1 + 2 * length addrs) ∷ 0 ∷ 0 ∷ (u32_bytes lifetime ++ joined addrs)
wire (other_option kind units body) = kind ∷ units ∷ body

abbrev pub wires : List NdOption → List ℕ
wires [] = []
wires (o ∷ os) = wire o ++ wires os

abbrev pub IsWellFormed : NdOption → Type 0
IsWellFormed (prefix_option p) =
    (length p.prefix ≡ 16)
    × (p.prefix_len ≤ 128)
    × IsU32 p.valid_lifetime
    × IsU32 p.preferred_lifetime
IsWellFormed (dns_option lifetime addrs) = (0 < length addrs) × All (λ a. length a ≡ 16) addrs
IsWellFormed (other_option kind units body) =
    (kind ≢ opt_prefix_info) × (kind ≢ opt_rdnss) × (0 < units) × (2 + length body ≡ units * 8)

-- What an option adds to an advertisement.
abbrev pub adding : RouterAdvert → NdOption → RouterAdvert
adding r (prefix_option p) = record r { prefixes = r.prefixes ++ (p ∷ []) }
adding r (dns_option lifetime addrs) = record r { dns = r.dns ++ addrs }
adding r (other_option kind units body) = r

abbrev pub adding_all : RouterAdvert → List NdOption → RouterAdvert
adding_all r [] = r
adding_all r (o ∷ os) = adding_all (adding r o) os

flags_read :
    (l a : Bool)
    → (is_set (bit l prefix_on_link + bit a prefix_autonomous) prefix_on_link ≡ l)
      × (is_set (bit l prefix_on_link + bit a prefix_autonomous) prefix_autonomous ≡ a)
flags_read true true = (refl, refl)
flags_read true false = (refl, refl)
flags_read false true = (refl, refl)
flags_read false false = (refl, refl)

prefix_info-wire :
    (p : PrefixInfo) → IsWellFormed (prefix_option p) → prefix_info (wire (prefix_option p)) ≡ ok p
unfolding prefix_info wire u32_bytes
prefix_info-wire p h = rw (
  (==_iff (length p.prefix) 16).1 h.0,
  le→not_ltb 128 p.prefix_len h.1,
  be_u32-bytes p.valid_lifetime h.2,
  be_u32-bytes p.preferred_lifetime h.3,
  (flags_read p.on_link p.autonomous).0,
  (flags_read p.on_link p.autonomous).1,
)

length-joined :
    (addrs : List Ipv6Addr)
    → All (λ a. length a ≡ 16) addrs
    → length (joined addrs) ≡ length addrs * 16
length-joined [] h = refl
length-joined (a ∷ rest) h =
    omega (arith, length-append a (joined rest), h.0, length-joined rest h.1)

chunks-joined :
    (addrs : List Ipv6Addr)
    → All (λ a. length a ≡ 16) addrs
    → chunks (length addrs) (joined addrs) ≡ addrs
chunks-joined [] h = refl
chunks-joined (a ∷ rest) h =
    rw (
      take-append 16 a (joined rest) h.0,
      drop-append 16 a (joined rest) h.0,
      chunks-joined rest h.1,
    )

as_chunks-joined :
    (addrs : List Ipv6Addr) → All (λ a. length a ≡ 16) addrs → as_chunks (joined addrs) ≡ addrs
as_chunks-joined addrs h =
    let count : length (joined addrs) / 16 ≡ length addrs = omega (arith, length-joined addrs h) in
    rw count (chunks-joined addrs h)

nonempty : (xs : List ℕ) → 0 < length xs → is_empty xs ≡ false
nonempty [] h = absurd (omega arith)
nonempty (x ∷ xs) h = refl

rdnss-wire :
    (lifetime : ℕ) (addrs : List Ipv6Addr)
    → IsWellFormed (dns_option lifetime addrs)
    → rdnss (wire (dns_option lifetime addrs)) ≡ ok addrs
unfolding rdnss wire u32_bytes
rdnss-wire lifetime [] h = absurd (omega (arith, h.0))
rdnss-wire lifetime (a ∷ rest) h =
    let body = joined (a ∷ rest) in
    let len : length body ≡ length (a ∷ rest) * 16 = length-joined (a ∷ rest) h.1 in
    let filled : is_empty body ≡ false = nonempty body (omega arith) in
    let even : (length body % 16 == 0) ≡ true = (==_iff (length body % 16) 0).1 (omega arith) in
    let long : ltb (length (wire (dns_option lifetime (a ∷ rest)))) 8 ≡ false =
      le→not_ltb _ _ (omega arith) in
    rw (long, filled, even, as_chunks-joined (a ∷ rest) h.1)

-- One option, whatever follows it.
module _ (kind units : ℕ) (body rest : List ℕ) (fuel : ℕ) (r r' : RouterAdvert) where
  one_option :
      0 < units
      → 2 + length body ≡ units * 8
      → take_option r kind (kind ∷ units ∷ body) ≡ ok r'
      → decode_options (suc fuel) r (kind ∷ units ∷ (body ++ rest)) ≡ decode_options fuel r' rest
  unfolding decode_options
  one_option h len taken =
      let some_units : (units * 8 == 0) ≡ false = ground arith in
      let long : ltb (length (kind ∷ units ∷ (body ++ rest))) (units * 8) ≡ false =
        le→not_ltb _ _ (omega (arith, length-append body rest)) in
      let whole : length (kind ∷ units ∷ body) ≡ units * 8 = omega arith in
      rw (
        some_units,
        long,
        take-append (units * 8) (kind ∷ units ∷ body) rest whole,
        drop-append (units * 8) (kind ∷ units ∷ body) rest whole,
        taken,
      )

step_wire :
    (o : NdOption) (rest : List ℕ) (fuel : ℕ) (r : RouterAdvert)
    → IsWellFormed o
    → decode_options (suc fuel) r (wire o ++ rest) ≡ decode_options fuel (adding r o) rest
unfolding wire take_option u32_bytes
step_wire (prefix_option p) rest fuel r h =
    one_option 3 4 (drop 2 (wire (prefix_option p))) rest fuel r (adding r (prefix_option p))
      (omega arith) (omega (arith, h.0)) (rw (prefix_info-wire p h))
step_wire (dns_option l addrs) rest fuel r h =
    one_option 25 (1 + 2 * length addrs) (drop 2 (wire (dns_option l addrs))) rest fuel r
      (adding r (dns_option l addrs)) (omega arith) (omega (arith, length-joined addrs h.1))
      (rw (rdnss-wire l addrs h))
step_wire (other_option kind units body) rest fuel r h =
    one_option kind units body rest fuel r r h.2 h.3 (ground (arith, h.0, h.1))

decode_options-wires :
    (os : List NdOption) (fuel : ℕ) (r : RouterAdvert)
    → All IsWellFormed os
    → length os ≤ fuel
    → decode_options fuel r (wires os) ≡ ok (adding_all r os)
unfolding decode_options
decode_options-wires [] fuel r h hf = refl
decode_options-wires (o ∷ os) zero r h hf = absurd (omega arith)
decode_options-wires (o ∷ os) (suc fuel) r h hf =
    step_wire o (wires os) fuel r h.0 ∙ decode_options-wires os fuel (adding r o) h.1 (omega arith)

length-wire : (o : NdOption) → 0 < length (wire o)
unfolding wire
length-wire (prefix_option p) = omega arith
length-wire (dns_option l addrs) = omega arith
length-wire (other_option k u b) = omega arith

length-wires : (os : List NdOption) → length os ≤ length (wires os)
length-wires [] = omega arith
length-wires (o ∷ os) =
    omega (arith, length-append (wire o) (wires os), length-wire o, length-wires os)

-- An advertisement's header before any option.
unfoldable pub header : (hop flags lifetime reachable retrans : ℕ) → RouterAdvert
header hop flags lifetime reachable retrans = record {
  hop_limit = hop;
  managed = is_set flags flag_managed;
  other_config = is_set flags flag_other;
  router_lifetime = lifetime;
  reachable_time = reachable;
  retrans_timer = retrans;
  prefixes = [];
  dns = [];
}

-- A router advertisement laid out as RFC 4861 does, with any header whose fields fit their words
-- and any list of well-formed options, is read as its header fields, its prefixes and its name
-- servers, each in the order they came in. Options of other kinds are passed over.
pub decode-wires :
    (os : List NdOption) (sum0 sum1 hop flags lifetime reachable retrans : ℕ)
    → All IsWellFormed os
    → IsU16 lifetime
    → IsU32 reachable
    → IsU32 retrans
    → decode (
        router_advertisement
        ∷ 0
        ∷ sum0
        ∷ sum1
        ∷ hop
        ∷ flags
        ∷ (u16_bytes lifetime ++ (u32_bytes reachable ++ (u32_bytes retrans ++ wires os))))
      ≡ ok (adding_all (header hop flags lifetime reachable retrans) os)
unfolding decode header u16_bytes u32_bytes
decode-wires os sum0 sum1 hop flags lifetime reachable retrans h hl hr ht =
    rw (be_u16-bytes lifetime hl, be_u32-bytes reachable hr, be_u32-bytes retrans ht)
      (decode_options-wires os (length (wires os)) _ h (length-wires os))
