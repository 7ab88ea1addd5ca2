-- ===== src/Security/UrlSafety.antt =====
-- What a URL that passes `validate_url_safe` is.
use domain_status.Common.{
  ◌≡◌, ◌≢◌, sym, ◌∙◌, ◌⊎◌, inl, inr, ◌↔◌, Bool, true, false, ◌||◌, none, some, arith, any, Text,
  codes, text_eq, text_eq_iff, ends_with, to_ascii_lowercase, ok, Option-cases, Bool-cases,
}
use domain_status.Security.Net.{Ipv4Addr, IsIpv4}
use domain_status.Security.Ip.{is_private_ipv4, is_private_ipv6}
use domain_status.Security.Ranges.{
  to_bits, in_block, reserved_blocks, is_private_ipv4-reserved_blocks,
}
use domain_status.Security.Url.{
  Host, domain, ipv4, ipv6, Url, UrlCrate, is_localhost_domain, is_http_scheme, check_host,
  check_url, validate_url_safe,
}

-- A host that is no name of this machine and lies in no reserved block.
abbrev pub IsPublicHost : Host → Type 0
IsPublicHost (domain d) =
    (to_ascii_lowercase d ≢ codes "localhost")
    × (to_ascii_lowercase d ≢ codes "localhost.")
    × (to_ascii_lowercase d ≢ codes "localhost.localdomain")
    × (to_ascii_lowercase d ≢ codes "localhost.localdomain.")
    × (ends_with (codes ".localhost") (to_ascii_lowercase d) ≡ false)
    × (ends_with (codes ".localhost.") (to_ascii_lowercase d) ≡ false)
IsPublicHost (ipv4 ip) = any (in_block (to_bits ip)) reserved_blocks ≡ false
IsPublicHost (ipv6 ip) = is_private_ipv6 ip ≡ false

pub record IsSafeUrl (crate : UrlCrate) (s : Text) : Type 0 where
  pub url : Url
  pub host : Host
  pub parsed : crate.parse s ≡ some url
  pub http : (url.scheme ≡ codes "http") ⊎ (url.scheme ≡ codes "https")
  pub hosted : url.host ≡ some host
  pub public : IsPublicHost host

text_ne_iff : (s t : Text) → (text_eq s t ≡ false) ↔ (s ≢ t)
text_ne_iff s t = elim (Bool-cases (text_eq s t)) [
  | inl same ↦ (λ h. cc, λ h. absurd (h ((text_eq_iff s t).0 same)))
  | inr other ↦ (λ h e. cc ((text_eq_iff s t).1 e), λ h. other)
]

-- A disjunction of six tests is false when each of them is.
no_test_iff :
    (a b c d e f : Bool)
    → ((a || b || c || d || e || f) ≡ false)
      ↔ ((a ≡ false) × (b ≡ false) × (c ≡ false) × (d ≡ false) × (e ≡ false) × (f ≡ false))
no_test_iff a b c d e f = ground arith

is_localhost_domain_iff : (d : Text) → (is_localhost_domain d ≡ false) ↔ IsPublicHost (domain d)
unfolding is_localhost_domain
is_localhost_domain_iff d =
    let lower = to_ascii_lowercase d in
    let tests =
      no_test_iff (text_eq lower (codes "localhost")) (text_eq lower (codes "localhost."))
        (text_eq lower (codes "localhost.localdomain"))
        (text_eq lower (codes "localhost.localdomain.")) (ends_with (codes ".localhost") lower)
        (ends_with (codes ".localhost.") lower) in
    (
      λ h.
          let r = tests.0 h in
          (
            (text_ne_iff _ _).0 r.0,
            (text_ne_iff _ _).0 r.1,
            (text_ne_iff _ _).0 r.2,
            (text_ne_iff _ _).0 r.3,
            r.4,
            r.5,
          ),
      λ p. tests.1 (
        (text_ne_iff _ _).1 p.0,
        (text_ne_iff _ _).1 p.1,
        (text_ne_iff _ _).1 p.2,
        (text_ne_iff _ _).1 p.3,
        p.4,
        p.5,
      ),
    )

-- An IPv4 host that is the host of a parsed URL.
is_private_ipv4_iff :
    (ip : Ipv4Addr) → IsIpv4 ip → (is_private_ipv4 ip ≡ false) ↔ IsPublicHost (ipv4 ip)
is_private_ipv4_iff ip h =
    let same = is_private_ipv4-reserved_blocks ip h in (λ e. sym same ∙ e, λ e. same ∙ e)

abbrev IsIpv4Host : Host → Type 0
IsIpv4Host (ipv4 ip) = IsIpv4 ip
IsIpv4Host _ = Unit

check_host_iff : (h : Host) → IsIpv4Host h → (check_host (some h) ≡ ok tt) ↔ IsPublicHost h
unfolding check_host
check_host_iff (domain d) w = ground (arith, is_localhost_domain_iff d)
check_host_iff (ipv4 ip) w = ground (arith, is_private_ipv4_iff ip w)
check_host_iff (ipv6 ip) w = ground arith

is_http_scheme_iff :
    (s : Text) → (is_http_scheme s ≡ true) ↔ ((s ≡ codes "http") ⊎ (s ≡ codes "https"))
unfolding is_http_scheme
is_http_scheme_iff s = ground (arith, text_eq_iff s (codes "http"), text_eq_iff s (codes "https"))

no_host_fails : (u : Url) → u.host ≡ none → check_url u ≢ ok tt
unfolding check_url check_host
no_host_fails u e = ground arith

module _ (crate : UrlCrate) (s : Text) where
  parsed-IsIpv4Host : (u : Url) (h : Host) → crate.parse s ≡ some u → u.host ≡ some h → IsIpv4Host h
  parsed-IsIpv4Host u (ipv4 ip) p q = crate.parse-IsIpv4 s u ip p q
  parsed-IsIpv4Host u (domain d) p q = tt
  parsed-IsIpv4Host u (ipv6 ip) p q = tt

  accepted-IsSafeUrl : (u : Url) → crate.parse s ≡ some u → check_url u ≡ ok tt → IsSafeUrl crate s
  unfolding check_url
  accepted-IsSafeUrl u p e = elim (Option-cases u.host) [
    | inl missing ↦ absurd (no_host_fails u missing e)
    | inr (h, q) ↦ record {
      url = u;
      host = h;
      parsed = p;
      http = (is_http_scheme_iff u.scheme).0 (ground arith);
      hosted = q;
      public = (check_host_iff h (parsed-IsIpv4Host u h p q)).0 (ground arith);
    }
  ]

  validated-IsSafeUrl : validate_url_safe crate s ≡ ok tt → IsSafeUrl crate s
  unfolding validate_url_safe
  validated-IsSafeUrl e = elim (Option-cases (crate.parse s)) [
    | inl failed ↦ absurd (ground arith)
    | inr (u, p) ↦ accepted-IsSafeUrl u p (ground arith)
  ]

  IsSafeUrl-accepted : IsSafeUrl crate s → validate_url_safe crate s ≡ ok tt
  unfolding validate_url_safe
  IsSafeUrl-accepted r =
      let http = (is_http_scheme_iff r.url.scheme).1 r.http in
      let public =
        (check_host_iff r.host (parsed-IsIpv4Host r.url r.host r.parsed r.hosted)).1 r.public in
      ground arith

-- `validate_url_safe` accepts exactly the texts that parse to an http or https URL with a public
-- host: none of the names of this machine, no address in a reserved IPv4 block, and no IPv6
-- address that `is_private_ipv6` holds of.
pub validate_url_safe_iff :
    (crate : UrlCrate) (s : Text) → (validate_url_safe crate s ≡ ok tt) ↔ IsSafeUrl crate s
validate_url_safe_iff crate s = (validated-IsSafeUrl crate s, IsSafeUrl-accepted crate s)
