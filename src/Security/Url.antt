-- ===== src/Security/Url.antt =====
-- `validate_url_safe` of src/security/url_validation.rs, over the `url` crate as a parameter.
use domain_status.Common.{
  ◌≡◌, Bool, ◌||◌, Option, none, some, Text, codes, text_eq, ends_with, to_ascii_lowercase, Result,
  ok, err, if◌then◌else◌,
}
use domain_status.Security.Net.{Ipv4Addr, IsIpv4, Ipv6Addr}
use domain_status.Security.Ip.{is_private_ipv4, is_private_ipv6}

-- `url::Host`.
pub data Host : Type 0 where
  domain : Text → Host
  ipv4 : Ipv4Addr → Host
  ipv6 : Ipv6Addr → Host

-- What the program reads of a `url::Url`; `href` is its serialisation, `as_str`.
pub record Url : Type 0 where
  pub scheme : Text
  pub host : Option Host
  pub href : Text

-- The `url` crate: `Url::parse`, `Url::join` (`none` on an error), with three facts of its
-- documentation: the serialisation of a URL parses to that URL, and octets are bytes.
pub record UrlCrate : Type 0 where
  pub parse : Text → Option Url
  pub join : Url → Text → Option Url
  pub parse-href : (s : Text) (u : Url) → parse s ≡ some u → parse u.href ≡ some u
  pub join-href : (b : Url) (s : Text) (u : Url) → join b s ≡ some u → parse u.href ≡ some u
  pub parse-IsIpv4 :
      (s : Text) (u : Url) (ip : Ipv4Addr) → parse s ≡ some u → u.host ≡ some (ipv4 ip) → IsIpv4 ip

-- The reasons for which `validate_url_safe` fails.
pub data UrlError : Type 0 where
  unparsable unsafe_scheme localhost private_ipv4 private_ipv6 no_host : UrlError

-- Domains of the crate are ASCII, on which `to_lowercase` is `to_ascii_lowercase`.
unfoldable pub is_localhost_domain : Text → Bool
is_localhost_domain d =
    let lower = to_ascii_lowercase d in
    text_eq lower (codes "localhost")
    || text_eq lower (codes "localhost.")
    || text_eq lower (codes "localhost.localdomain")
    || text_eq lower (codes "localhost.localdomain.")
    || ends_with (codes ".localhost") lower
    || ends_with (codes ".localhost.") lower

unfoldable pub is_http_scheme : Text → Bool
is_http_scheme scheme = text_eq scheme (codes "http") || text_eq scheme (codes "https")

-- The `match` on the host.
unfoldable pub check_host : Option Host → Result (Unit {0}) UrlError
check_host none = err no_host
check_host (some (domain d)) = if is_localhost_domain d then err localhost else ok tt
check_host (some (ipv4 ip)) = if is_private_ipv4 ip then err private_ipv4 else ok tt
check_host (some (ipv6 ip)) = if is_private_ipv6 ip then err private_ipv6 else ok tt

-- The checks behind `Url::parse`.
unfoldable pub check_url : Url → Result (Unit {0}) UrlError
check_url u = if is_http_scheme u.scheme then check_host u.host else err unsafe_scheme

module _ (crate : UrlCrate) where
  unfoldable pub validate_url_safe : Text → Result (Unit {0}) UrlError
  unfolding check_url
  validate_url_safe url_str = elim (crate.parse url_str) [
    | none ↦ err unparsable
    | some u ↦ check_url u
  ]
