-- ===== src/Redirects/Safety.antt =====
-- The checks on each hop, seen from the whole chain.
use domain_status.Common.{
  ℕ, ◌≡◌, ◌≢◌, refl, inl, inr, Bool, true, false, Option, some, List, arith, Text, codes,
  text_eq_iff, Result, ok, err, All, Option-cases,
}
use domain_status.Security.Url.{Url, UrlCrate, validate_url_safe}
use domain_status.Security.UrlSafety.{IsSafeUrl, validate_url_safe_iff}
use domain_status.Redirects.{
  Response, Client, Resolved, unsafe_target, validate_redirect_target, validate_initial,
  resolve_location, starts_https, resolve_redirect_chain, with_error,
}
use domain_status.Redirects.Trace.{Trace, final, redirected, resolve_redirect_chain-IsResolved}

with_error-ok :
    {E F : Type 0} (m : Result (Unit {0}) E) (f : F) → with_error f m ≡ ok tt → m ≡ ok tt
with_error-ok (ok tt) f e = refl
with_error-ok (err x) f e = absurd (ground arith)

module _ (crate : UrlCrate) where
  target-IsSafeUrl :
      (url scheme : Text) (https : Bool)
      → validate_redirect_target crate url scheme https false ≡ ok tt
      → IsSafeUrl crate url
  unfolding validate_redirect_target
  target-IsSafeUrl url scheme https e =
      (validate_url_safe_iff crate url).0
        (with_error-ok (validate_url_safe crate url) unsafe_target (ground arith))

  initial-IsSafeUrl : (url : Text) → validate_initial crate url false ≡ ok tt → IsSafeUrl crate url
  unfolding validate_initial
  initial-IsSafeUrl url e = (validate_url_safe_iff crate url).0 (with_error-ok _ _ e)

  target_no_downgrade :
      (url scheme : Text) (loopback : Bool)
      → validate_redirect_target crate url scheme true loopback ≡ ok tt
      → scheme ≢ codes "http"
  unfolding validate_redirect_target
  target_no_downgrade url scheme loopback e = ground (arith, text_eq_iff scheme (codes "http"))

  -- A resolved location serialises to a text that parses to it.
  resolved-href :
      (current loc : Text) (u : Url)
      → resolve_location crate current loc ≡ some u
      → crate.parse u.href ≡ some u
  unfolding resolve_location
  resolved-href current loc u e = elim (Option-cases (crate.parse loc)) [
    | inr (v, absolute) ↦ crate.parse-href loc u (ground arith)
    | inl relative ↦ elim (Option-cases (crate.parse current)) [
      | inl missing ↦ absurd (ground arith)
      | inr (base, parsed) ↦ crate.join-href base loc u (ground arith)
    ]
  ]

  -- The URL of the text is no http URL.
  abbrev pub IsNotHttp : Text → Type 0
  IsNotHttp url = (u : Url) × (crate.parse url ≡ some u) × (u.scheme ≢ codes "http")

  starts_https-IsNotHttp : (url : Text) → starts_https crate url ≡ true → IsNotHttp url
  unfolding starts_https
  starts_https-IsNotHttp url e = elim (Option-cases (crate.parse url)) [
    | inl missing ↦ absurd (ground arith)
    | inr (u, parsed) ↦ (u, parsed, λ h. ground (arith, text_eq_iff u.scheme (codes "https")))
  ]

  module _ (client : Client) {last : Text} {kept : Option Response} where
    Trace-IsSafeUrl :
        {https : Bool} {n : ℕ} {url : Text} {chain : List (Text × ℕ)}
        → Trace crate client https false last kept n url chain
        → IsSafeUrl crate url
        → All (λ entry. IsSafeUrl crate entry.0) chain
    Trace-IsSafeUrl (final resp sent same k) safe = (safe, tt)
    Trace-IsSafeUrl (redirected resp loc next sent r l d allowed t) safe =
        (safe, Trace-IsSafeUrl t (target-IsSafeUrl next.href next.scheme _ allowed))

    Trace-IsNotHttp :
        {loopback : Bool} {n : ℕ} {url : Text} {chain : List (Text × ℕ)}
        → Trace crate client true loopback last kept n url chain
        → IsNotHttp url
        → All (λ entry. IsNotHttp entry.0) chain
    Trace-IsNotHttp (final resp sent same k) start = (start, tt)
    Trace-IsNotHttp (redirected {url} resp loc next sent r l resolved allowed t) start = (
      start,
      Trace-IsNotHttp t (
        next,
        resolved-href url loc next resolved,
        target_no_downgrade next.href next.scheme _ allowed,
      ),
    )

-- With `allow_loopback` off, as in production, every URL of the chain, the start URL included,
-- is an http or https URL with a public host.
pub resolve_redirect_chain-IsSafeUrl :
    (crate : UrlCrate) (client : Client) (start : Text) (max_hops : ℕ) (r : Resolved)
    → resolve_redirect_chain crate client start max_hops false ≡ ok r
    → All (λ entry. IsSafeUrl crate entry.0) r.chain
resolve_redirect_chain-IsSafeUrl crate client start max_hops r e =
    let c = resolve_redirect_chain-IsResolved crate client start max_hops false r e in
    Trace-IsSafeUrl crate client c.trace (initial-IsSafeUrl crate start c.allowed)

-- A chain that starts on https has no http URL, whether or not loopback targets are allowed.
pub resolve_redirect_chain_no_downgrade :
    (crate : UrlCrate) (client : Client) (start : Text) (max_hops : ℕ) (loopback : Bool)
    (r : Resolved)
    → starts_https crate start ≡ true
    → resolve_redirect_chain crate client start max_hops loopback ≡ ok r
    → All (λ entry. IsNotHttp crate entry.0) r.chain
resolve_redirect_chain_no_downgrade crate client start max_hops loopback r https e =
    let c = resolve_redirect_chain-IsResolved crate client start max_hops loopback r e in
    Trace-IsNotHttp crate client (rw https at c.trace) (starts_https-IsNotHttp crate start https)
