-- ===== src/Security/Tests.antt =====
-- The guard on concrete addresses and URLs.
use domain_status.Common.{
  ◌≡◌, ◌≢◌, refl, ◌↔◌, true, false, ◌||◌, List, [], ◌∷◌, none, arith, any, within, Text, codes,
  Result, ok, err,
}
use domain_status.Security.Net.{Ipv4Addr, Ipv6Addr, IpAddr, v4, v6}
use domain_status.Security.Net.V4
use domain_status.Security.Net.V6
use domain_status.Security.Ip.{
  is_private_ipv4, extra_ipv4_ranges, is_private_ipv6, is_private_unmapped, is_private_ip,
}
use domain_status.Security.Ranges.{
  to_bits, in_block, reserved_blocks, is_private_ipv4-reserved_blocks,
}
use domain_status.Security.Embedded.{
  ipv4_mapped, ipv4_compatible, head_bits, is_private_ipv6-embedded, is_private_ipv6-native,
}
use domain_status.Security.Url.{
  private_ipv4, unparsable, is_localhost_domain, is_http_scheme, check_host, validate_url_safe,
}
use domain_status.Security.UrlSafety.{IsSafeUrl, validate_url_safe_iff}
use domain_status.Security.Resolver.{
  ResolveError, is_public_ip, filter, at_port_zero, filter_public_socket_addrs, resolve,
}
use domain_status.Security.ResolverLaws.{Publics, resolve-Publics}
use domain_status.Security.Demo.{demo}

guard : Unit {0}
unfolding validate_url_safe check_host is_http_scheme is_localhost_domain is_private_ipv4
    extra_ipv4_ranges is_private_ipv6 is_private_unmapped is_private_ip V4.is_loopback V4.is_private
    V4.is_link_local V4.is_multicast V4.is_broadcast V4.is_documentation V6.to_ipv4
    V6.to_ipv4_mapped V6.is_unspecified V6.is_loopback V6.is_unique_local V6.is_unicast_link_local
    V6.is_multicast resolve filter filter_public_socket_addrs is_public_ip
guard = tt

abbrev link_local : Ipv4Addr
link_local = record { a = 169; b = 254; c = 169; d = 254 }

abbrev public_dns : Ipv4Addr
public_dns = record { a = 8; b = 8; c = 8; d = 8 }

abbrev unique_local : Ipv6Addr
unique_local = record { s0 = 0xfd00; s1 = 1; s2 = 0; s3 = 0; s4 = 0; s5 = 0; s6 = 0; s7 = 5 }

guard_tests :
    (is_private_ipv4 link_local ≡ true)
    × (is_private_ipv4 public_dns ≡ false)
    × (is_private_ipv6 unique_local ≡ true)
    × (validate_url_safe demo (codes "https://a.org/") ≡ ok tt)
    × (validate_url_safe demo (codes "http://169.254.169.254/") ≡ err private_ipv4)
    × (validate_url_safe demo (codes "nonsense") ≡ err unparsable)
    × (is_localhost_domain (codes "App.LocalHost") ≡ true)
unfolding guard
guard_tests = (refl, refl, refl, refl, refl, refl, refl)

is_private_ipv4-reserved_blocks_example :
    is_private_ipv4 link_local ≡ any (in_block (to_bits link_local)) reserved_blocks
is_private_ipv4-reserved_blocks_example = is_private_ipv4-reserved_blocks link_local (omega arith)

is_private_ipv6-embedded_example :
    (is_private_ipv6 (ipv4_mapped link_local) ≡ is_private_ipv4 link_local)
    × (is_private_ipv6 (ipv4_compatible link_local) ≡ is_private_ipv4 link_local)
is_private_ipv6-embedded_example = is_private_ipv6-embedded link_local (omega arith)

unique_local_plain : V6.to_ipv4 unique_local ≡ none
unfolding guard
unique_local_plain = refl

is_private_ipv6-native_example : is_private_ipv6 unique_local ≡ (
    within 0xfc000000 0xfdffffff (head_bits unique_local)
    || within 0xfe800000 0xfebfffff (head_bits unique_local)
    || within 0xff000000 0xffffffff (head_bits unique_local)
    || within 0x20010db8 0x20010db8 (head_bits unique_local))
is_private_ipv6-native_example =
    is_private_ipv6-native unique_local (omega arith) (omega arith) unique_local_plain

validate_url_safe_iff_example :
    (validate_url_safe demo (codes "https://a.org/") ≡ ok tt)
    ↔ IsSafeUrl demo (codes "https://a.org/")
validate_url_safe_iff_example = validate_url_safe_iff demo (codes "https://a.org/")

-- A resolver that is rebound: one public and one private answer, or private ones alone.
abbrev mixed : Text → Result (List IpAddr) ResolveError
mixed name = ok (v4 link_local ∷ v4 public_dns ∷ [])

abbrev rebound : Text → Result (List IpAddr) ResolveError
rebound name = ok (v4 link_local ∷ v6 unique_local ∷ [])

mixed_run : resolve mixed (codes "a.org") ≡ ok (at_port_zero (v4 public_dns) ∷ [])
unfolding guard
mixed_run = refl

resolve-Publics_example :
    Publics (v4 link_local ∷ v4 public_dns ∷ []) (at_port_zero (v4 public_dns) ∷ [])
    × (at_port_zero (v4 public_dns) ∷ [] ≢ [])
resolve-Publics_example =
    resolve-Publics mixed (codes "a.org") (v4 link_local ∷ v4 public_dns ∷ [])
      (at_port_zero (v4 public_dns) ∷ []) refl mixed_run
