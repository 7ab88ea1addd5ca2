-- ===== src/Detection/Signals.antt =====
-- src/fingerprint/detection: signal_match.rs, headers.rs, cookies.rs and dns_cert.rs, which match a
-- ruleset against the headers, the cookies, and the DNS records and certificate issuer. The signals
-- of a technology are those compiled at load.
use domain_status.Common.{
  Bool, true, false, ◌||◌, Option, none, some, List, [], ◌∷◌, Text, codes, text_eq, if◌then◌else◌,
  is_some, get, eq_ignore_ascii_case,
}
use domain_status.Literals.Steps.{Found, absorb}
use domain_status.Detection.Ruleset.{Technology, FingerprintRuleset, DetectionSource}
use domain_status.Detection.Finalize.{SignalMatch}
use domain_status.Detection.Compiled.{
  Regexes, CompiledPattern, presence_only, evaluate, compile_list, compile_map, compile_list_map,
}

-- The loop variables at the start.
abbrev pub nothing_found : Found
nothing_found = record { matched = false; version = none }

abbrev pub report_match : Text → DetectionSource → Found → List SignalMatch → List SignalMatch
report_match name source found more =
    if found.matched
    then record { tech_name = name; version = found.version; source = source } ∷ more
    else more

unfoldable pub is_csp_allowlist_header : Text → Bool
is_csp_allowlist_header name =
    text_eq name (codes "content-security-policy")
    || text_eq name (codes "content-security-policy-report-only")

unfoldable pub is_serving_stack_dns_type : Text → Bool
is_serving_stack_dns_type record_type =
    eq_ignore_ascii_case record_type (codes "NS")
    || eq_ignore_ascii_case record_type (codes "CNAME")

abbrev pub dns_source : Text → DetectionSource
dns_source record_type =
    if eq_ignore_ascii_case record_type (codes "CNAME")
    then DetectionSource.cname
    else DetectionSource.ns

-- The first source to match.
abbrev pub first_source : Bool → DetectionSource → Option DetectionSource → Option DetectionSource
first_source matches here (some source) = some source
first_source matches here none = if matches then some here else none

-- The match, the version and the source of a technology.
pub record SourcedMatch : Type 0 where
  pub found : Found
  pub source : Option DetectionSource

module _ {R : Type 0} (e : Regexes R) where
  -- One compiled pattern on one value, and whether to stop.
  unfoldable pub consider : CompiledPattern R → Text → Found → Found × Bool
  unfolding presence_only
  consider compiled value f =
      if presence_only e compiled
      then (record { matched = true; version = f.version }, true)
      else absorb (evaluate e compiled value) f

  abbrev pub consider_both : Option Text → Option (CompiledPattern R) → Found → Found × Bool
  consider_both none compiled f = (f, false)
  consider_both (some value) none f = (f, false)
  consider_both (some value) (some compiled) f = consider compiled value f

  module _ (skip_key : Text → Bool) (values : List (Text × Text)) where
    unfoldable pub match_key : List (Text × CompiledPattern R) → Text → Found → Found × Bool
    unfolding consider
    match_key prepared key f =
        if skip_key key then (f, false) else consider_both (get key values) (get key prepared) f

    unfoldable pub match_keys : List (Text × CompiledPattern R) → List (Text × Text) → Found → Found
    unfolding match_key
    match_keys prepared [] f = f
    match_keys prepared ((key, pattern) ∷ patterns) f =
        let step = match_key prepared key f in
        let more = match_keys prepared patterns step.0 in if step.1 then step.0 else more

    -- `match_string_map_signal` with `headers` selected, as its one caller does.
    unfoldable pub match_string_map_signal :
        List (Text × Technology) → DetectionSource → List SignalMatch
    unfolding match_keys
    match_string_map_signal [] source = []
    match_string_map_signal ((name, tech) ∷ rest) source =
        report_match name source
          (match_keys (compile_map e tech.headers) tech.headers nothing_found)
          (match_string_map_signal rest source)

  unfoldable pub check_headers_with_ruleset :
      FingerprintRuleset → List (Text × Text) → List SignalMatch
  unfolding is_csp_allowlist_header match_string_map_signal
  check_headers_with_ruleset rules headers =
      match_string_map_signal is_csp_allowlist_header headers rules.technologies
        DetectionSource.header

  -- The patterns of one record type, or of the issuer, until a version is found.
  unfoldable pub match_source :
      DetectionSource → List (CompiledPattern R) → Text → SourcedMatch → SourcedMatch
  match_source here [] text d = d
  match_source here (p ∷ ps) text d =
      let result = evaluate e p text in
      let step = absorb result d.found in
      let next : SourcedMatch = record {
        found = step.0;
        source = first_source result.matched here d.source;
      } in
      let more = match_source here ps text next in if step.1 then next else more

  module _ (to_uppercase : Text → Text) (dns_records : List (Text × Text)) where
    abbrev pub match_record :
        Text → Option Text → Option (List (CompiledPattern R)) → SourcedMatch → SourcedMatch
    match_record record_type none ps d = d
    match_record record_type (some haystack) none d = d
    match_record record_type (some haystack) (some ps) d =
        match_source (dns_source record_type) ps haystack d

    unfoldable pub match_records :
        List (Text × List (CompiledPattern R))
        → List (Text × List Text)
        → SourcedMatch
        → SourcedMatch
    unfolding is_serving_stack_dns_type match_source
    match_records prepared [] d = d
    match_records prepared ((record_type, patterns) ∷ rest) d =
        let next =
          (if is_serving_stack_dns_type record_type
            then match_record record_type (get (to_uppercase record_type) dns_records)
                (get record_type prepared) d
            else d) in
        let more = match_records prepared rest next in
        if is_some next.found.version then next else more

    abbrev pub match_issuer : Option Text → List (CompiledPattern R) → SourcedMatch → SourcedMatch
    match_issuer none ps d = d
    match_issuer (some issuer) ps d = match_source DetectionSource.cert ps issuer d

    abbrev pub nothing_yet : SourcedMatch
    nothing_yet = record { found = nothing_found; source = none }

    abbrev pub source_or_ns : Option DetectionSource → DetectionSource
    source_or_ns none = DetectionSource.ns
    source_or_ns (some source) = source

    -- One technology; `issuer` is lower case already.
    unfoldable pub match_dns_cert : Technology → Option Text → SourcedMatch
    unfolding match_records
    match_dns_cert tech issuer =
        match_issuer issuer (compile_list e tech.cert_issuer)
          (match_records (compile_list_map e tech.dns) tech.dns nothing_yet)

    unfoldable pub match_all_dns_cert : List (Text × Technology) → Option Text → List SignalMatch
    unfolding match_dns_cert
    match_all_dns_cert [] issuer = []
    match_all_dns_cert ((name, tech) ∷ rest) issuer =
        let d = match_dns_cert tech issuer in
        report_match name (source_or_ns d.source) d.found (match_all_dns_cert rest issuer)

    abbrev lower_issuer : (Text → Text) → Option Text → Option Text
    lower_issuer to_lowercase none = none
    lower_issuer to_lowercase (some issuer) = some (to_lowercase issuer)

    unfoldable pub check_dns_and_cert_with_ruleset :
        (Text → Text) → FingerprintRuleset → Option Text → List SignalMatch
    unfolding match_all_dns_cert
    check_dns_and_cert_with_ruleset to_lowercase rules cert_issuer =
        match_all_dns_cert rules.technologies (lower_issuer to_lowercase cert_issuer)
