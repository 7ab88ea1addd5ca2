-- ===== src/Security/Embedded.antt =====
-- The IPv6 test on addresses that carry an IPv4 address, and on all others.
use domain_status.Common.{
  ℕ, ◌+◌, ◌*◌, ◌<◌, ◌≡◌, ap, Bool, true, false, ◌&&◌, ◌||◌, none, arith, within, ◌==◌,
  if◌then◌else◌,
}
use domain_status.Security.Net.{Ipv4Addr, IsIpv4, Ipv6Addr, low_ipv4}
use domain_status.Security.Net.V6
use domain_status.Security.Ip.{
  extra_ipv4_ranges, is_private_ipv4, is_private_unmapped, is_private_ipv6,
}

-- `::ffff:a.b.c.d`
abbrev pub ipv4_mapped : Ipv4Addr → Ipv6Addr
ipv4_mapped ip = record {
  s0 = 0;
  s1 = 0;
  s2 = 0;
  s3 = 0;
  s4 = 0;
  s5 = 0xffff;
  s6 = ip.a * 256 + ip.b;
  s7 = ip.c * 256 + ip.d;
}

-- `::a.b.c.d`
abbrev pub ipv4_compatible : Ipv4Addr → Ipv6Addr
ipv4_compatible ip = record {
  s0 = 0;
  s1 = 0;
  s2 = 0;
  s3 = 0;
  s4 = 0;
  s5 = 0;
  s6 = ip.a * 256 + ip.b;
  s7 = ip.c * 256 + ip.d;
}

low_ipv4-mapped : (ip : Ipv4Addr) → IsIpv4 ip → low_ipv4 (ipv4_mapped ip) ≡ ip
low_ipv4-mapped ip h = ground arith

low_ipv4-compatible : (ip : Ipv4Addr) → IsIpv4 ip → low_ipv4 (ipv4_compatible ip) ≡ ip
low_ipv4-compatible ip h = ground arith

-- All of 0.0.0.0/8 is private.
zero_net : (ip : Ipv4Addr) → ip.a ≡ 0 → is_private_ipv4 ip ≡ true
unfolding is_private_ipv4 extra_ipv4_ranges
zero_net ip e = ground arith

is_private_ipv6-mapped :
    (ip : Ipv4Addr) → IsIpv4 ip → is_private_ipv6 (ipv4_mapped ip) ≡ is_private_ipv4 ip
unfolding is_private_ipv6 V6.to_ipv4_mapped
is_private_ipv6-mapped ip h = ap is_private_ipv4 (low_ipv4-mapped ip h)

-- `::` and `::1` are private by tests of their own, and so are 0.0.0.0 and 0.0.0.1.
is_private_ipv6-compatible :
    (ip : Ipv4Addr) → IsIpv4 ip → is_private_ipv6 (ipv4_compatible ip) ≡ is_private_ipv4 ip
unfolding is_private_ipv6 is_private_unmapped V6.to_ipv4_mapped V6.to_ipv4 V6.is_unspecified
    V6.is_loopback V6.is_unique_local V6.is_unicast_link_local V6.is_multicast
is_private_ipv6-compatible ip h =
    ground (arith, ap is_private_ipv4 (low_ipv4-compatible ip h), zero_net ip)

-- Both ways to write an IPv4 address as an IPv6 address are classified as that address is.
pub is_private_ipv6-embedded :
    (ip : Ipv4Addr)
    → IsIpv4 ip
    → (is_private_ipv6 (ipv4_mapped ip) ≡ is_private_ipv4 ip)
      × (is_private_ipv6 (ipv4_compatible ip) ≡ is_private_ipv4 ip)
is_private_ipv6-embedded ip h = (is_private_ipv6-mapped ip h, is_private_ipv6-compatible ip h)

one_test :
    (u l m d : Bool)
    → (if false || false || u || l || m then true else if d then true else false)
      ≡ (u || l || m || d)
one_test u l m d = ground arith

-- The first 32 bits of the address.
abbrev pub head_bits : Ipv6Addr → ℕ
head_bits ip = ip.s0 * 65536 + ip.s1

module _ (ip : Ipv6Addr) (h0 : ip.s0 < 65536) (h1 : ip.s1 < 65536) where
  unique_local_block : V6.is_unique_local ip ≡ within 0xfc000000 0xfdffffff (head_bits ip)
  unfolding V6.is_unique_local
  unique_local_block = ground arith

  link_local_block : V6.is_unicast_link_local ip ≡ within 0xfe800000 0xfebfffff (head_bits ip)
  unfolding V6.is_unicast_link_local
  link_local_block = ground arith

  multicast_block : V6.is_multicast ip ≡ within 0xff000000 0xffffffff (head_bits ip)
  unfolding V6.is_multicast
  multicast_block = ground arith

  documentation_block :
      (ip.s0 == 0x2001 && ip.s1 == 0x0db8) ≡ within 0x20010db8 0x20010db8 (head_bits ip)
  documentation_block = ground arith

-- An address that carries no IPv4 address is neither mapped, nor `::`, nor `::1`.
not_embedded :
    (ip : Ipv6Addr)
    → V6.to_ipv4 ip ≡ none
    → (V6.to_ipv4_mapped ip ≡ none) × (V6.is_unspecified ip ≡ false) × (V6.is_loopback ip ≡ false)
unfolding V6.to_ipv4_mapped V6.to_ipv4 V6.is_unspecified V6.is_loopback
not_embedded ip e = ground arith

-- Of the addresses that carry no IPv4 address, exactly fc00::/7, fe80::/10, ff00::/8 and
-- 2001:db8::/32 are private.
pub is_private_ipv6-native :
    (ip : Ipv6Addr)
    → ip.s0 < 65536
    → ip.s1 < 65536
    → V6.to_ipv4 ip ≡ none
    → is_private_ipv6 ip ≡ (
        within 0xfc000000 0xfdffffff (head_bits ip)
        || within 0xfe800000 0xfebfffff (head_bits ip)
        || within 0xff000000 0xffffffff (head_bits ip)
        || within 0x20010db8 0x20010db8 (head_bits ip))
unfolding is_private_ipv6 is_private_unmapped
is_private_ipv6-native ip h0 h1 e =
    let (mapped, unspecified, loopback) = not_embedded ip e in
    rw (mapped, is_private_ipv6)
      (rw
        (
          unspecified,
          loopback,
          unique_local_block ip h0 h1,
          link_local_block ip h0 h1,
          multicast_block ip h0 h1,
          documentation_block ip h0 h1,
          e,
          is_private_unmapped,
        )
        (one_test (within 0xfc000000 0xfdffffff (head_bits ip))
          (within 0xfe800000 0xfebfffff (head_bits ip))
          (within 0xff000000 0xffffffff (head_bits ip))
          (within 0x20010db8 0x20010db8 (head_bits ip))))
