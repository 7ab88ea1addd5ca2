-- ===== src/Security/Ip.antt =====
-- The address tests of src/security/url_validation.rs.
use domain_status.Common.{
  Bool, true, false, ◌&&◌, ◌||◌, none, some, leb, within, ◌==◌, if◌then◌else◌,
}
use domain_status.Security.Net.{Ipv4Addr, Ipv6Addr, IpAddr, v4, v6}
use domain_status.Security.Net.V4
use domain_status.Security.Net.V6

-- The ranges that the function adds to those of std.
unfoldable pub extra_ipv4_ranges : Ipv4Addr → Bool
extra_ipv4_ranges ip =
    ip.a == 0
    || (ip.a == 100 && within 64 127 ip.b)
    || (ip.a == 198 && (ip.b == 18 || ip.b == 19))
    || (ip.a == 192 && ip.b == 0 && ip.c == 0)
    || leb 240 ip.a

unfoldable pub is_private_ipv4 : Ipv4Addr → Bool
is_private_ipv4 ip =
    if V4.is_loopback ip
      || V4.is_private ip
      || V4.is_link_local ip
      || V4.is_multicast ip
      || V4.is_broadcast ip
      || V4.is_documentation ip
    then true
    else extra_ipv4_ranges ip

-- The part of `is_private_ipv6` behind the test for a mapped address.
unfoldable pub is_private_unmapped : Ipv6Addr → Bool
is_private_unmapped ip =
    if V6.is_unspecified ip
      || V6.is_loopback ip
      || V6.is_unique_local ip
      || V6.is_unicast_link_local ip
      || V6.is_multicast ip
    then true
    else if ip.s0 == 0x2001 && ip.s1 == 0x0db8
    then true
    else elim (V6.to_ipv4 ip) [ some ipv4 ↦ is_private_ipv4 ipv4 | none ↦ false ]

unfoldable pub is_private_ipv6 : Ipv6Addr → Bool
is_private_ipv6 ip = elim (V6.to_ipv4_mapped ip) [
  | some ipv4 ↦ is_private_ipv4 ipv4
  | none ↦ is_private_unmapped ip
]

unfoldable pub is_private_ip : IpAddr → Bool
is_private_ip (v4 ip) = is_private_ipv4 ip
is_private_ip (v6 ip) = is_private_ipv6 ip
