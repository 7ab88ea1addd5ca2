-- ===== src/Detection/Detect.antt =====
-- src/fingerprint/detection/mod.rs: the detection from its matchers to its report, and the two
-- supplements. A header map is the list of its names and values in lower case, with the values of one
-- name joined; `cookies` are those of the response.
use domain_status.Common.{
  ℕ, not, ◌&&◌, Option, none, some, List, [], ◌∷◌, Text, codes, is_empty, if◌then◌else◌, is_some,
}
use domain_status.Detection.Ruleset.{FingerprintRuleset}
use domain_status.Detection.Finalize.{
  DetectedTechnology, SignalMatch, detect_technologies, supplement_technologies,
}
use domain_status.Detection.Compiled.{Regexes, Cache}
use domain_status.Detection.Signals.{check_headers_with_ruleset, check_dns_and_cert_with_ruleset}
use domain_status.Detection.Cookies.{check_cookies_with_ruleset}
use domain_status.Detection.Body.{Page, check_body_with_ruleset, check_scripts_with_ruleset}

module _ {R C : Type 0} (e : Regexes R) (m : Cache C R) (find : List Text → Text → List ℕ)
    (to_lowercase to_uppercase : Text → Text) (url_host : Text → Option Text) where
  -- The cookies are not asked if there are none.
  abbrev cookie_results : FingerprintRuleset → List (Text × Text) → C → List SignalMatch × C
  cookie_results rules cookies c =
      if is_empty cookies then ([], c) else check_cookies_with_ruleset e m rules cookies c

  unfoldable pub detect_technologies_blocking :
      FingerprintRuleset
      → List (Text × Text)
      → List (Text × Text)
      → Page
      → List Text
      → C
      → List DetectedTechnology × C
  detect_technologies_blocking rules headers cookies page script_tag_ids c =
      let from_cookies = cookie_results rules cookies c in
      (
        detect_technologies url_host rules (check_headers_with_ruleset e rules headers)
            from_cookies.0 (check_body_with_ruleset e find to_lowercase rules page) page.url
            script_tag_ids,
        from_cookies.1,
      )

  unfoldable pub supplement_technologies_with_dns_cert :
      FingerprintRuleset
      → List DetectedTechnology
      → List (Text × Text)
      → Option Text
      → List DetectedTechnology
  supplement_technologies_with_dns_cert rules already dns_records cert_issuer =
      if is_empty dns_records && not (is_some cert_issuer)
      then already
      else supplement_technologies rules already (
          check_dns_and_cert_with_ruleset e to_uppercase dns_records to_lowercase rules cert_issuer)

  unfoldable pub supplement_technologies_with_script_text :
      FingerprintRuleset → List DetectedTechnology → Text → List DetectedTechnology
  supplement_technologies_with_script_text rules already script_text =
      if is_empty script_text
      then already
      else supplement_technologies rules already
          (check_scripts_with_ruleset e find rules script_text)

abbrev push_haystack : (Text → Text) → Text → Option Text → List (Text × Text) → List (Text × Text)
push_haystack to_lowercase key none m = m
push_haystack to_lowercase key (some value) m =
    if is_empty value then m else (key, to_lowercase value) ∷ m

unfoldable pub dns_records_haystack : (Text → Text) → Option Text → Option Text → List (Text × Text)
dns_records_haystack to_lowercase nameservers cname_chain =
    push_haystack to_lowercase (codes "CNAME") cname_chain
      (push_haystack to_lowercase (codes "NS") nameservers [])
