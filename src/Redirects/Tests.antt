-- ===== src/Redirects/Tests.antt =====
-- Redirect chains over a `url` crate and a client that are written out.
use domain_status.Common.{zero, suc, ◌≡◌, refl, true, false, [], ◌∷◌, none, some, ok, All}
use domain_status.Security.Url.{validate_url_safe, check_host, is_http_scheme, is_localhost_domain}
use domain_status.Security.UrlSafety.{IsSafeUrl}
use domain_status.Security.Demo.{secure, insecure, demo}
use domain_status.Redirects.{
  Client, absent, target, is_redirect_status, Resolved, validate_redirect_target, validate_initial,
  resolve_location, starts_https, resolve_redirect_chain,
}
use domain_status.Redirects.Trace.{IsResolved, resolve_redirect_chain-IsResolved}
use domain_status.Redirects.Safety.{
  IsNotHttp, resolve_redirect_chain-IsSafeUrl, resolve_redirect_chain_no_downgrade,
}

chains : Unit {0}
unfolding resolve_redirect_chain is_redirect_status validate_redirect_target validate_initial
    resolve_location starts_https validate_url_safe check_host is_http_scheme is_localhost_domain
chains = tt

-- The first answer redirects to the https site, the second is the page.
abbrev upgrade : Client
upgrade zero url = some (record { status = 301; location = target secure.href })
upgrade (suc n) url = some (record { status = 200; location = absent })

-- Every answer redirects to the http site.
abbrev strip : Client
strip n url = some (record { status = 302; location = target insecure.href })

abbrev upgraded : Resolved
upgraded = record {
  final_url = secure.href;
  chain = (insecure.href, 301) ∷ (secure.href, 200) ∷ [];
  response = some (record { status = 200; location = absent });
}

abbrev stopped : Resolved
stopped = record { final_url = secure.href; chain = (secure.href, 302) ∷ []; response = none }

upgrade_run : resolve_redirect_chain demo upgrade insecure.href 10 false ≡ ok upgraded
unfolding chains
upgrade_run = refl

strip_run : resolve_redirect_chain demo strip secure.href 10 false ≡ ok stopped
unfolding chains
strip_run = refl

resolve_redirect_chain-IsResolved_example : IsResolved demo upgrade insecure.href 10 false upgraded
resolve_redirect_chain-IsResolved_example =
    resolve_redirect_chain-IsResolved demo upgrade insecure.href 10 false upgraded upgrade_run

resolve_redirect_chain-IsSafeUrl_example : All (λ entry. IsSafeUrl demo entry.0) upgraded.chain
resolve_redirect_chain-IsSafeUrl_example =
    resolve_redirect_chain-IsSafeUrl demo upgrade insecure.href 10 upgraded upgrade_run

secure_starts : starts_https demo secure.href ≡ true
unfolding chains
secure_starts = refl

resolve_redirect_chain_no_downgrade_example : All (λ entry. IsNotHttp demo entry.0) stopped.chain
resolve_redirect_chain_no_downgrade_example =
    resolve_redirect_chain_no_downgrade demo strip secure.href 10 false stopped secure_starts
      strip_run
