-- ===== src/Headers/Tests.antt =====
-- Headers with the directives and attributes in odd places.
use domain_status.Common.{◌≡◌, refl, true, false, none, some, [], ◌∷◌, Text, codes}
use domain_status.Headers.Hsts.{parse_max_age_number, parse_hsts_directive}
use domain_status.Headers.SetCookie.{ParsedSetCookie, extract_cookies_name_value_map}
use domain_status.Headers.Cdn.{detect_cdn_provider}

abbrev comma_separated : Text
comma_separated =
    codes "'Strict-Transport-Security: max-age=31_536_000, includeSubDomains; Preload'"

hsts_run :
    parse_hsts_directive comma_separated
    ≡ record { max_age = some 31536000; include_subdomains = true; preload = true }
unfolding parse_hsts_directive parse_max_age_number
hsts_run = refl

abbrev two_jammed : Text
two_jammed = codes "sid=1; SameSite=Lax, b=2; SameSite=None; Secure"

abbrev no_same_site : ParsedSetCookie
no_same_site = record {
  name = codes "sid";
  value = some (codes "1");
  secure = true;
  http_only = false;
  same_site = none;
  domain = none;
  path = none;
}

map_run :
    extract_cookies_name_value_map (λ s. s) (codes "a=1" ∷ codes "b" ∷ []) (some (codes "a=2; c=3"))
    ≡ (codes "a", codes "2") ∷ (codes "c", codes "3") ∷ []
unfolding extract_cookies_name_value_map
map_run = refl

cdn_run :
    detect_cdn_provider [] [] (some (codes "[\"d1.CloudFront.net\"]")) none
    ≡ some (codes "cloudfront")
unfolding detect_cdn_provider
cdn_run = refl
