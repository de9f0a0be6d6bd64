-- ===== src/Dhcp/Ipv6/Examples.antt =====
-- An advertisement of one prefix, one name server and an option that is passed over
-- (crates/caw-dhcp/src/ipv6.rs).
use caw.Prelude.{ℕ, List, [], ◌∷◌, ◌++◌, ◌≡◌, refl, arith, ok, true, replicate}
use caw.Prelude.Words.{u16_bytes, u32_bytes}
use caw.Dhcp.Ipv6.{
  PrefixInfo, Mac, decode, router_advertisement, slaac, slaac_address, eui64_interface_id,
}
use caw.Dhcp.Ipv6.Options.{
  NdOption, prefix_option, dns_option, other_option, wires, adding_all, header, decode-wires,
}
use caw.Dhcp.Ipv6.Slaac.{IsSlaacAddress, slaac-IsSlaacAddress}

abbrev half : List ℕ
half = 0x20 ∷ 0x01 ∷ 0x0d ∷ 0xb8 ∷ 0 ∷ 0 ∷ 0 ∷ 1 ∷ []

abbrev prefix_64 : PrefixInfo
prefix_64 = record {
  prefix = half ++ replicate 8 0;
  prefix_len = 64;
  on_link = true;
  autonomous = true;
  valid_lifetime = 86_400;
  preferred_lifetime = 14_400;
}

abbrev station : Mac
station = record { m0 = 0x02; m1 = 0; m2 = 0x5e; m3 = 0x10; m4 = 0; m5 = 1 }

abbrev options : List NdOption
options =
    other_option 1 1 (2 ∷ 0 ∷ 0 ∷ 0 ∷ 0 ∷ 1 ∷ [])
    ∷ prefix_option prefix_64
    ∷ dns_option 600 ((half ++ replicate 8 1) ∷ [])
    ∷ []

decode-wires_example :
    decode (
      router_advertisement
      ∷ 0
      ∷ 0xab
      ∷ 0xcd
      ∷ 64
      ∷ 0xc0
      ∷ (u16_bytes 1800 ++ (u32_bytes 0 ++ (u32_bytes 0 ++ wires options))))
    ≡ ok (adding_all (header 64 0xc0 1800 0 0) options)
decode-wires_example =
    decode-wires options 0xab 0xcd 64 0xc0 1800 0 0 (ground arith) (omega arith) (omega arith)
      (omega arith)

slaac-IsSlaacAddress_example :
    IsSlaacAddress prefix_64 station (half ++ (0 ∷ 0 ∷ 0x5e ∷ 0xff ∷ 0xfe ∷ 0x10 ∷ 0 ∷ 1 ∷ []))
unfolding slaac slaac_address eui64_interface_id
slaac-IsSlaacAddress_example = slaac-IsSlaacAddress prefix_64 station _ refl (omega arith) refl
