-- ===== src/Security/Net/V4.antt =====
-- `std::net::Ipv4Addr`.
use domain_status.Common.{Bool, ◌&&◌, ◌||◌, within, ◌==◌}
use domain_status.Security.Net.{Ipv4Addr}

unfoldable pub is_loopback : Ipv4Addr → Bool
is_loopback ip = ip.a == 127

unfoldable pub is_private : Ipv4Addr → Bool
is_private ip = ip.a == 10 || (ip.a == 172 && within 16 31 ip.b) || (ip.a == 192 && ip.b == 168)

unfoldable pub is_link_local : Ipv4Addr → Bool
is_link_local ip = ip.a == 169 && ip.b == 254

unfoldable pub is_multicast : Ipv4Addr → Bool
is_multicast ip = within 224 239 ip.a

unfoldable pub is_broadcast : Ipv4Addr → Bool
is_broadcast ip = ip.a == 255 && ip.b == 255 && ip.c == 255 && ip.d == 255

unfoldable pub is_documentation : Ipv4Addr → Bool
is_documentation ip =
    (ip.a == 192 && ip.b == 0 && ip.c == 2)
    || (ip.a == 198 && ip.b == 51 && ip.c == 100)
    || (ip.a == 203 && ip.b == 0 && ip.c == 113)
