-- ===== src/Security/Demo.antt =====
-- A `url` crate that knows three URLs, and one that reads every text as the same URL: the
-- assumptions on the crate can be met.
use domain_status.Common.{
  ◌≡◌, refl, Option, none, some, some_inj, arith, Text, codes, text_eq, Bool, true, false, ◌⊎◌, inl,
  inr, if◌then◌else◌,
}
use mathlib.Core.Path.{subst}
use domain_status.Security.Net.{Ipv4Addr, IsIpv4}
use domain_status.Security.Url.{Host, domain, ipv4, Url, UrlCrate}

abbrev pub secure : Url
secure = record {
  scheme = codes "https";
  host = some (domain (codes "a.org"));
  href = codes "https://a.org/";
}

abbrev pub insecure : Url
insecure = record {
  scheme = codes "http";
  host = some (domain (codes "a.org"));
  href = codes "http://a.org/";
}

abbrev pub metadata : Url
metadata = record {
  scheme = codes "http";
  host = some (ipv4 (record { a = 169; b = 254; c = 169; d = 254 }));
  href = codes "http://169.254.169.254/";
}

abbrev pick : Bool → Bool → Bool → Option Url
pick a b c =
    if a then some secure else if b then some insecure else if c then some metadata else none

abbrev pub demo_parse : Text → Option Url
demo_parse s = pick (text_eq s secure.href) (text_eq s insecure.href) (text_eq s metadata.href)

known :
    (a b c : Bool) (u : Url) → pick a b c ≡ some u → (secure ≡ u) ⊎ (insecure ≡ u) ⊎ (metadata ≡ u)
known true b c u e = inl (some_inj e)
known false true c u e = inr (inl (some_inj e))
known false false true u e = inr (inr (some_inj e))
known false false false u e = absurd (ground arith)

pub demo_parse-href : (s : Text) (u : Url) → demo_parse s ≡ some u → demo_parse u.href ≡ some u
demo_parse-href s u e = elim (known _ _ (text_eq s metadata.href) u e) [
  | inl h ↦ subst (λ v. demo_parse v.href ≡ some v) h refl
  | inr (inl h) ↦ subst (λ v. demo_parse v.href ≡ some v) h refl
  | inr (inr h) ↦ subst (λ v. demo_parse v.href ≡ some v) h refl
]

abbrev HostIsIpv4 : Option Host → Type 0
HostIsIpv4 (some (ipv4 ip)) = IsIpv4 ip
HostIsIpv4 _ = Unit

pub demo_parse-IsIpv4 :
    (s : Text) (u : Url) (ip : Ipv4Addr)
    → demo_parse s ≡ some u
    → u.host ≡ some (ipv4 ip)
    → IsIpv4 ip
demo_parse-IsIpv4 s u ip e h =
    subst HostIsIpv4 h
      (elim (known (text_eq s secure.href) (text_eq s insecure.href) (text_eq s metadata.href) u
        e) [
          | inl k ↦ subst (λ v. HostIsIpv4 v.host) k tt
          | inr (inl k) ↦ subst (λ v. HostIsIpv4 v.host) k tt
          | inr (inr k) ↦ subst (λ v. HostIsIpv4 v.host) k (omega arith)
        ])

pub no_join-href :
    (s : Text) (u : Url) → ◌≡◌ {A = Option Url} none (some u) → demo_parse u.href ≡ some u
no_join-href s u e = absurd (ground arith)

abbrev pub demo : UrlCrate
demo = record {
  parse = demo_parse;
  join = λ b s. none;
  parse-href = demo_parse-href;
  join-href = λ b s u e. no_join-href s u e;
  parse-IsIpv4 = demo_parse-IsIpv4;
}

pub constant-IsIpv4 :
    (u : Url) (ip : Ipv4Addr) → some secure ≡ some u → u.host ≡ some (ipv4 ip) → IsIpv4 ip
constant-IsIpv4 u ip e h = subst HostIsIpv4 h (subst (λ v. HostIsIpv4 v.host) (some_inj e) tt)

abbrev pub constant : UrlCrate
constant = record {
  parse = λ s. some secure;
  join = λ b s. some secure;
  parse-href = λ s u e. e;
  join-href = λ b s u e. e;
  parse-IsIpv4 = λ s u ip e h. constant-IsIpv4 u ip e h;
}
