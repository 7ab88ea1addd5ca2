-- ===== src/Security/Resolver.antt =====
-- src/security/safe_resolver.rs, over the DNS resolver as a parameter.
use domain_status.Common.{
  ℕ, Bool, not, List, [], ◌∷◌, map, Text, Result, ok, err, ◌>>=◌, is_empty, if◌then◌else◌,
}
use domain_status.Security.Net.{IpAddr}
use domain_status.Security.Ip.{is_private_ip}

-- `std::net::SocketAddr`.
pub record SocketAddr : Type 0 where
  pub ip : IpAddr
  pub port : ℕ

-- `permission_denied` is the error of `filter_public_socket_addrs`, `lookup` one of the resolver.
pub data ResolveError : Type 0 where
  lookup : ResolveError
  permission_denied : ResolveError

unfoldable pub is_public_ip : IpAddr → Bool
is_public_ip ip = not (is_private_ip ip)

-- `Iterator::filter`.
unfoldable pub filter {ℓ} : {A : Type ℓ} → (A → Bool) → List A → List A
filter p [] = []
filter p (x ∷ xs) = if p x then x ∷ filter p xs else filter p xs

abbrev pub at_port_zero : IpAddr → SocketAddr
at_port_zero ip = record { ip = ip; port = 0 }

unfoldable pub filter_public_socket_addrs : List IpAddr → Result (List SocketAddr) ResolveError
filter_public_socket_addrs ips =
    let safe_addrs : List SocketAddr =
      filter (λ addr. is_public_ip addr.ip) (map at_port_zero ips) in
    if is_empty safe_addrs then err permission_denied else ok safe_addrs

-- `SafeResolver::resolve`; the argument is `lookup_ip` of the resolver it wraps.
unfoldable pub resolve :
    (Text → Result (List IpAddr) ResolveError) → Text → Result (List SocketAddr) ResolveError
resolve lookup_ip name = do ips ← lookup_ip name; filter_public_socket_addrs ips
