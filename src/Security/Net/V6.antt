-- ===== src/Security/Net/V6.antt =====
-- `std::net::Ipv6Addr`. A test `s & mask == net` on the leading bits of a `u16` segment is a shift
-- to those bits.
use domain_status.Common.{◌/◌, Bool, ◌&&◌, ◌||◌, Option, none, some, ◌==◌, if◌then◌else◌}
use domain_status.Security.Net.{Ipv4Addr, Ipv6Addr, low_ipv4}

abbrev pub has_zero_head : Ipv6Addr → Bool
has_zero_head ip = ip.s0 == 0 && ip.s1 == 0 && ip.s2 == 0 && ip.s3 == 0 && ip.s4 == 0

unfoldable pub to_ipv4_mapped : Ipv6Addr → Option Ipv4Addr
to_ipv4_mapped ip = if has_zero_head ip && ip.s5 == 0xffff then some (low_ipv4 ip) else none

unfoldable pub to_ipv4 : Ipv6Addr → Option Ipv4Addr
to_ipv4 ip =
    if has_zero_head ip && (ip.s5 == 0 || ip.s5 == 0xffff) then some (low_ipv4 ip) else none

unfoldable pub is_unspecified : Ipv6Addr → Bool
is_unspecified ip = has_zero_head ip && ip.s5 == 0 && ip.s6 == 0 && ip.s7 == 0

unfoldable pub is_loopback : Ipv6Addr → Bool
is_loopback ip = has_zero_head ip && ip.s5 == 0 && ip.s6 == 0 && ip.s7 == 1

unfoldable pub is_unique_local : Ipv6Addr → Bool
is_unique_local ip = ip.s0 / 512 == 0x7e

unfoldable pub is_unicast_link_local : Ipv6Addr → Bool
is_unicast_link_local ip = ip.s0 / 64 == 0x3fa

unfoldable pub is_multicast : Ipv6Addr → Bool
is_multicast ip = ip.s0 / 256 == 0xff
