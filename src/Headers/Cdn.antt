-- ===== src/Headers/Cdn.antt =====
-- src/fetch/cdn.rs: the CDN that the headers and the DNS names of a response point to.
use domain_status.Common.{
  Bool, false, ◌&&◌, ◌||◌, Option, none, some, List, [], ◌∷◌, Text, codes, contains,
  to_ascii_lowercase, if◌then◌else◌, is_some, eq_ignore_ascii_case,
}

abbrev pub HeaderMap : Type 0
HeaderMap = List (Text × Text)

unfoldable pub header_value : HeaderMap → Text → Option Text
header_value [] name = none
header_value ((k, v) ∷ headers) name =
    if eq_ignore_ascii_case k name then some v else header_value headers name

abbrev value_contains : Text → Option Text → Bool
value_contains needle none = false
value_contains needle (some v) = contains needle (to_ascii_lowercase v)

abbrev or_else : Option Text → Option Text → Option Text
or_else none more = more
or_else (some a) more = some a

module _ (headers : HeaderMap) where
  abbrev present : Text → Bool
  present name = is_some (header_value headers name)

  unfoldable pub detect_from_server : Option Text
  unfolding header_value
  detect_from_server =
      if value_contains (codes "cloudflare") (header_value headers (codes "server"))
      then some (codes "cloudflare")
      else if value_contains (codes "netlify") (header_value headers (codes "server"))
      then some (codes "netlify")
      else none

  unfoldable pub detect_from_via : Option Text
  unfolding header_value
  detect_from_via =
      if value_contains (codes "cloudfront") (header_value headers (codes "via"))
      then some (codes "cloudfront")
      else if value_contains (codes "varnish") (header_value headers (codes "via"))
          && present (codes "x-served-by")
      then some (codes "fastly")
      else none

  unfoldable pub detect_from_headers : Option Text
  unfolding header_value detect_from_server detect_from_via
  detect_from_headers =
      if present (codes "cf-ray") || present (codes "cf-cache-status")
      then some (codes "cloudflare")
      else if value_contains (codes "cache-") (header_value headers (codes "x-served-by"))
          || present (codes "fastly-io-info")
      then some (codes "fastly")
      else if present (codes "x-amz-cf-id") || present (codes "x-amz-cf-pop")
      then some (codes "cloudfront")
      else if present (codes "x-azure-ref") || present (codes "x-msedge-ref")
      then some (codes "azure")
      else if present (codes "x-akamai-request-id") || present (codes "akamai-grn")
      then some (codes "akamai")
      else if present (codes "x-vercel-id") || present (codes "x-vercel-cache")
      then some (codes "vercel")
      else if present (codes "x-nf-request-id")
      then some (codes "netlify")
      else if present (codes "x-github-request-id")
      then some (codes "github_pages")
      else or_else detect_from_server detect_from_via

-- The needles with the providers that they stand for.
abbrev pub dns_rules : List (Text × Text)
dns_rules =
    (codes "cloudflare", codes "cloudflare")
    ∷ (codes "cdn.cloudflare.net", codes "cloudflare")
    ∷ (codes "fastly", codes "fastly")
    ∷ (codes "fastly.net", codes "fastly")
    ∷ (codes "cloudfront.net", codes "cloudfront")
    ∷ (codes "akamai", codes "akamai")
    ∷ (codes "akamaiedge", codes "akamai")
    ∷ (codes "edgekey.net", codes "akamai")
    ∷ (codes "azureedge.net", codes "azure")
    ∷ (codes "trafficmanager.net", codes "azure")
    ∷ (codes "vercel-dns", codes "vercel")
    ∷ (codes "vercel.app", codes "vercel")
    ∷ (codes "netlify", codes "netlify")
    ∷ (codes "github.io", codes "github_pages")
    ∷ (codes "googleusercontent", codes "google")
    ∷ (codes "ghs.google", codes "google")
    ∷ (codes "awsdns", codes "aws_dns")
    ∷ []

unfoldable pub first_rule : List (Text × Text) → Text → Option Text
first_rule [] blob = none
first_rule ((needle, provider) ∷ rules) blob =
    if contains needle blob then some provider else first_rule rules blob

abbrev of_blob : Option Text → Option Text
of_blob none = none
of_blob (some json) = first_rule dns_rules (to_ascii_lowercase json)

unfoldable pub detect_from_dns_blob : Option Text → Option Text
unfolding first_rule
detect_from_dns_blob json = of_blob json

unfoldable pub detect_cdn_provider : HeaderMap → HeaderMap → Option Text → Option Text → Option Text
unfolding detect_from_headers detect_from_dns_blob
detect_cdn_provider http_headers security_headers cname_chain_json nameservers_json =
    or_else (or_else (detect_from_headers http_headers) (detect_from_headers security_headers))
      (or_else (detect_from_dns_blob cname_chain_json) (detect_from_dns_blob nameservers_json))
