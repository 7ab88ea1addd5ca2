-- ===== src/Detection/Tests.antt =====
-- A ruleset of five technologies, with a regex engine of plain needles and an unbounded cache.
use domain_status.Common.{
  Includes, ◌≡◌, refl, ◌↔◌, inl, inr, true, false, not, Option, none, some, List, [], ◌∷◌, arith,
  Text, codes, contains, is_ascii_digit, if◌then◌else◌, Bool-cases, get, has, any, text_eq,
  text_eq_iff,
}
use domain_status.Detection.Version.{Captures, extract_version_from_template}
use domain_status.Detection.VersionLaws.{
  has_placeholder, extract_version_from_template-has_placeholder,
}
use domain_status.Detection.Patterns.{parse_pattern, parse_technology_reference, is_regex_pattern}
use domain_status.Detection.Compiled.{
  Regexes, MatchesByCaptures, Cache, ReturnsInserted, compile_pattern, compile_map,
  evaluate_compiled, matches_pattern,
}
use domain_status.Detection.CompiledLaws.{IsCoherent, compile_pattern-matches_pattern}
use domain_status.Detection.Ruleset.{
  Technology, default_technology, FingerprintRuleset, DetectionSource, as_str,
}
use domain_status.Detection.Matching.{
  excludes_technology, apply_technology_exclusions, apply_technology_requires,
}
use domain_status.Detection.RequiresLaws.{IsSelfMet, apply_technology_requires-IsSelfMet}
use domain_status.Detection.Implies.{TechInfo, Detected, expand_implies, max_implies_depth}
use domain_status.Detection.ImpliesLaws.{is_detected, WithinImplies}
use domain_status.Detection.ImpliesRounds.{expand_implies-is_detected}
use domain_status.Detection.Finalize.{
  DetectedTechnology, SignalMatch, keys, is_denylisted_technology, kept_technologies,
  get_technology_category, finalize_detections, detected_to_map, js_matches, detect_technologies,
}
use domain_status.Detection.FinalizeLaws.{
  is_reported, passes, finalize_detections-excludes_technology, detected_to_map-finalize_detections,
}
use domain_status.Detection.DetectLaws.{
  find_technology, all_matched, observed_by, detect_technologies-find_technology,
}
use domain_status.Detection.Signals.{is_csp_allowlist_header, match_keys, nothing_found}
use domain_status.Detection.SignalLaws.{hits_key, match_keys-matched}

abbrev template : Text
template = codes "version:\\1?\\1;beta:"

abbrev groups : Captures
groups = some (codes "6.4") ∷ []

version_run :
    extract_version_from_template is_ascii_digit (codes "version:v\\1;x") groups
    ≡ some (codes "v6.4")
unfolding extract_version_from_template
version_run = refl

extract_version_from_template-has_placeholder_example :
    has_placeholder is_ascii_digit (codes "v6.4") ≡ false
extract_version_from_template-has_placeholder_example =
    extract_version_from_template-has_placeholder is_ascii_digit (codes "version:v\\1;x") groups
      version_run

parsed_run :
    parse_technology_reference (codes "PHP\\;confidence:75\\;version:7")
    ≡ (codes "PHP", some (codes "7"))
unfolding parse_technology_reference
parsed_run = refl

-- A source of four characters or more compiles to what stands behind them.
abbrev needle_of : Text → Option Text
needle_of (a ∷ b ∷ c ∷ d ∷ s) = some s
needle_of _ = none

abbrev needle_captures : Text → Text → Option Captures
needle_captures r s = if contains r s then some groups else none

abbrev engine : Regexes Text
engine = record {
  new = needle_of;
  captures = needle_captures;
  is_match = contains;
  escape = λ s. s;
  is_digit = is_ascii_digit;
}

engine-MatchesByCaptures : MatchesByCaptures engine
engine-MatchesByCaptures r s = ground arith

abbrev Entries : Type 0
Entries = List (Text × Text)

abbrev entries : Cache Entries Text
entries = record { lookup = λ c k. get k c; insert = λ c k r. (k, r) ∷ c }

entries-ReturnsInserted : ReturnsInserted entries
entries-ReturnsInserted c k r k' r' h = elim (Bool-cases (text_eq k' k)) [
  | inl same ↦ inl (ground (arith, text_eq_iff k' k), ground arith)
  | inr other ↦ inr (ground arith)
]

no_entries-IsCoherent : IsCoherent engine entries []
no_entries-IsCoherent key r h = cc

abbrev versioned : Text
versioned = codes "nginx/(\\d+)\\;version:\\1"

compile_pattern-matches_pattern_example :
    (evaluate_compiled engine (compile_pattern engine versioned) (codes "nginx/(\\d+)")
      ≡ (matches_pattern engine entries versioned (codes "nginx/(\\d+)") []).0)
    × IsCoherent engine entries
        (matches_pattern engine entries versioned (codes "nginx/(\\d+)") []).1
compile_pattern-matches_pattern_example =
    compile_pattern-matches_pattern engine entries engine-MatchesByCaptures entries-ReturnsInserted
      versioned (codes "nginx/(\\d+)") no_entries-IsCoherent

compiled_run :
    evaluate_compiled engine (compile_pattern engine versioned) (codes "nginx/(\\d+)")
    ≡ record { matched = true; version = some (codes "6.4") }
unfolding evaluate_compiled compile_pattern parse_pattern is_regex_pattern
    extract_version_from_template
compiled_run = refl

abbrev wordpress : Technology
wordpress = record default_technology {
  implies = codes "PHP\\;confidence:75\\;version:7" ∷ codes "MySQL" ∷ [];
  excludes = codes "Joomla" ∷ [];
  cats = 1 ∷ [];
}

abbrev theme : Technology
theme = record default_technology {
  requires = codes "WordPress" ∷ [];
  requires_category = 1 ∷ [];
  js = (codes "theme_id", []) ∷ [];
}

abbrev rules : FingerprintRuleset
rules = record {
  technologies =
      (codes "WordPress", wordpress)
      ∷ (codes "PHP", default_technology)
      ∷ (codes "Theme", theme)
      ∷ (codes "Joomla", default_technology)
      ∷ [];
  categories = (1, codes "CMS") ∷ [];
}

apply_technology_requires-IsSelfMet_example :
    (has (codes "PHP") (apply_technology_requires (codes "Theme" ∷ codes "PHP" ∷ []) rules) ≡ true)
    ↔ ((members : List Text) × (has (codes "PHP") members ≡ true)
        × Includes members (codes "Theme" ∷ codes "PHP" ∷ [])
        × IsSelfMet rules members)
apply_technology_requires-IsSelfMet_example =
    apply_technology_requires-IsSelfMet (codes "Theme" ∷ codes "PHP" ∷ []) rules (codes "PHP")
      (omega arith)

requires_run : apply_technology_requires (codes "Theme" ∷ codes "PHP" ∷ []) rules ≡ codes "PHP" ∷ []
unfolding apply_technology_requires parse_technology_reference
requires_run = refl

abbrev observed_info : TechInfo
observed_info = record {
  version = some (codes "6.4");
  is_implied = false;
  source = DetectionSource.html;
}

abbrev observed : Detected
observed = (codes "WordPress", observed_info) ∷ []

expand_implies-is_detected_example :
    (is_detected (codes "PHP") (expand_implies observed rules) ≡ true)
    ↔ WithinImplies rules observed max_implies_depth (codes "PHP")
expand_implies-is_detected_example = expand_implies-is_detected rules (codes "PHP") observed

implies_run : is_detected (codes "PHP") (expand_implies observed rules) ≡ true
unfolding expand_implies parse_technology_reference
implies_run = refl

abbrev both_cms : Detected
both_cms =
    (codes "WordPress", observed_info)
    ∷ (codes "Joomla", observed_info)
    ∷ (codes "PHP", observed_info)
    ∷ []

reported_run :
    (is_reported (codes "WordPress") (finalize_detections both_cms rules) ≡ true)
    × (is_reported (codes "Joomla") (finalize_detections both_cms rules) ≡ false)
    × (is_reported (codes "PHP") (finalize_detections both_cms rules) ≡ true)
unfolding finalize_detections is_denylisted_technology kept_technologies apply_technology_requires
    apply_technology_exclusions parse_technology_reference
reported_run = (refl, refl, refl)

finalize_detections-excludes_technology_example :
    (excludes_technology rules (codes "PHP") (codes "WordPress") ≡ false)
    × (is_denylisted_technology (codes "PHP") rules ≡ false)
finalize_detections-excludes_technology_example =
    finalize_detections-excludes_technology (codes "PHP") (codes "WordPress") both_cms rules
      reported_run.2 reported_run.0

detected_to_map-finalize_detections_example :
    get (codes "PHP") (detected_to_map (finalize_detections both_cms rules)) ≡ (
      if passes rules (kept_technologies rules (keys both_cms)) (codes "PHP")
      then get (codes "PHP") both_cms
      else none)
detected_to_map-finalize_detections_example =
    detected_to_map-finalize_detections (codes "PHP") both_cms rules refl

abbrev header_results : List SignalMatch
header_results =
    record {
      tech_name = codes "WordPress";
      version = some (codes "6.4");
      source = DetectionSource.header;
    }
    ∷ []

abbrev script_tag_ids : List Text
script_tag_ids = codes "theme_id" ∷ []

abbrev reported_php : DetectedTechnology
reported_php = record {
  name = codes "PHP";
  version = some (codes "7");
  category = none;
  is_implied = true;
  detection_source = some (codes "implied");
}

detect_run :
    find_technology (codes "PHP") (
      detect_technologies
        (λ url. none)
        rules
        header_results
        []
        []
        (codes "https://a.example/")
        script_tag_ids)
    ≡ some reported_php
unfolding detect_technologies is_denylisted_technology finalize_detections kept_technologies
    expand_implies apply_technology_requires apply_technology_exclusions parse_technology_reference
    get_technology_category as_str
detect_run = refl

detect_technologies-find_technology_example :
    WithinImplies rules
      (observed_by (λ url. none) rules (codes "PHP") header_results [] [] script_tag_ids)
      max_implies_depth
      (codes "PHP")
    × (true
        ≡ not (
            all_matched
              (codes "PHP")
              header_results
              []
              []
              (js_matches rules.technologies script_tag_ids)))
detect_technologies-find_technology_example =
    detect_technologies-find_technology (λ url. none) rules (codes "PHP") header_results [] []
      (codes "https://a.example/") script_tag_ids detect_run

abbrev header_patterns : List (Text × Text)
header_patterns = (codes "x-powered-by", []) ∷ (codes "server", codes "nginx") ∷ []

match_keys-matched_example :
    (match_keys engine is_csp_allowlist_header
      ((codes "server", codes "nginx/1") ∷ [])
      (compile_map engine header_patterns)
      header_patterns
      nothing_found).matched
    ≡ any
        (λ p.
          hits_key engine is_csp_allowlist_header
            ((codes "server", codes "nginx/1") ∷ [])
            (compile_map engine header_patterns)
            p.0)
        header_patterns
match_keys-matched_example =
    match_keys-matched engine is_csp_allowlist_header ((codes "server", codes "nginx/1") ∷ [])
      (compile_map engine header_patterns) header_patterns nothing_found
