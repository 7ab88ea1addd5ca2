-- ===== src/Detection/Finalize.antt =====
-- src/fingerprint/detection/mod.rs: the technologies that are reported, the way back from a report,
-- and the steps of the detection. `url_host` stands for `Url::parse` and `host_str` of the url crate.
use domain_status.Common.{
  ℕ, Bool, false, not, ◌&&◌, ◌||◌, Option, none, some, List, [], ◌∷◌, Text, codes, text_eq,
  to_ascii_lowercase, skip_while, is_empty, ◌==◌, if◌then◌else◌, any, has, eq_ignore_ascii_case,
  filter,
}
use mathlib.Core.List.{reverse}
use domain_status.Detection.Ruleset.{
  Technology, FingerprintRuleset, technology_of, get_category, DetectionSource, as_str,
  parse_detection_source,
}
use domain_status.Detection.Matching.{apply_technology_exclusions, apply_technology_requires}
use domain_status.Detection.Implies.{TechInfo, Detected, upsert, merge_observed, expand_implies}

pub record DetectedTechnology : Type 0 where
  pub name : Text
  pub version : Option Text
  pub category : Option Text
  pub is_implied : Bool
  pub detection_source : Option Text

abbrev has_category : FingerprintRuleset → Text → Option Technology → Bool
has_category rules category none = false
has_category rules category (some tech) =
    any
      (λ id. elim (get_category id rules.categories) [
        | none ↦ false
        | some c ↦ eq_ignore_ascii_case c category
      ])
      tech.cats

unfoldable pub technology_in_category : FingerprintRuleset → Text → Text → Bool
technology_in_category rules name category = has_category rules category (technology_of rules name)

unfoldable pub is_denylisted_technology : Text → FingerprintRuleset → Bool
unfolding technology_in_category
is_denylisted_technology name rules =
    eq_ignore_ascii_case name (codes "HTTP/2")
    || eq_ignore_ascii_case name (codes "HTTP/3")
    || eq_ignore_ascii_case name (codes "HSTS")
    || technology_in_category rules name (codes "SSL/TLS certificate authorities")

abbrev first_category : FingerprintRuleset → List ℕ → Option Text
first_category rules [] = none
first_category rules (id ∷ ids) = get_category id rules.categories

unfoldable pub get_technology_category : FingerprintRuleset → Text → Option Text
get_technology_category rules name = elim (technology_of rules name) [
  | none ↦ none
  | some tech ↦ first_category rules tech.cats
]

-- The keys of the map.
abbrev pub keys : Detected → List Text
keys [] = []
keys ((name, info) ∷ rest) = name ∷ keys rest

unfoldable pub report_technology : FingerprintRuleset → Text → TechInfo → DetectedTechnology
report_technology rules name info = record {
  name = name;
  version = info.version;
  category = get_technology_category rules name;
  is_implied = info.is_implied;
  detection_source = some (as_str info.source);
}

-- The two filters, and the report of what they let through.
unfoldable pub report_kept : FingerprintRuleset → List Text → Detected → List DetectedTechnology
unfolding report_technology
report_kept rules kept_names [] = []
report_kept rules kept_names ((name, info) ∷ rest) =
    let reported = report_kept rules kept_names rest in
    if has name kept_names && not (is_denylisted_technology name rules)
    then report_technology rules name info ∷ reported
    else reported

unfoldable pub kept_technologies : FingerprintRuleset → List Text → List Text
kept_technologies rules names =
    apply_technology_requires (apply_technology_exclusions names rules) rules

unfoldable pub finalize_detections : Detected → FingerprintRuleset → List DetectedTechnology
unfolding report_kept kept_technologies
finalize_detections detected rules =
    report_kept rules (kept_technologies rules (keys detected)) detected

abbrev source_or : DetectionSource → Option DetectionSource → DetectionSource
source_or default none = default
source_or default (some source) = source

abbrev parse_source : Option Text → Option DetectionSource
parse_source none = none
parse_source (some raw) = parse_detection_source raw

unfoldable pub info_of : DetectedTechnology → TechInfo
unfolding parse_detection_source
info_of tech = record {
  version = tech.version;
  is_implied = tech.is_implied;
  source =
      source_or (if tech.is_implied then DetectionSource.implied else DetectionSource.html)
        (parse_source tech.detection_source);
}

-- `HashMap::insert` of each.
unfoldable pub insert_all : List DetectedTechnology → Detected → Detected
unfolding info_of
insert_all [] detected = detected
insert_all (tech ∷ techs) detected =
    insert_all techs (upsert (λ old. info_of tech) (info_of tech) tech.name detected)

unfoldable pub detected_to_map : List DetectedTechnology → Detected
unfolding insert_all
detected_to_map techs = insert_all techs []

-- `SignalMatch` and `BodyMatchResult`.
pub record SignalMatch : Type 0 where
  pub tech_name : Text
  pub version : Option Text
  pub source : DetectionSource

unfoldable pub merge_all : List SignalMatch → Detected → Detected
unfolding merge_observed
merge_all [] detected = detected
merge_all (r ∷ results) detected =
    merge_all results (merge_observed detected r.tech_name r.version r.source)

-- The technologies with a `js` key among the ids of the script tags.
unfoldable pub js_matches : List (Text × Technology) → List Text → List SignalMatch
js_matches [] ids = []
js_matches ((name, tech) ∷ rest) ids =
    let more = js_matches rest ids in
    if any (λ key. has key.0 ids) tech.js
    then record { tech_name = name; version = none; source = DetectionSource.js } ∷ more
    else more

module _ (url_host : Text → Option Text) where
  abbrev github_host : Option Text → Bool
  github_host none = false
  github_host (some host) =
      let bare = to_ascii_lowercase (reverse (skip_while (λ c. c == b'.') (reverse host))) in
      text_eq bare (codes "github.com") || text_eq bare (codes "www.github.com")

  unfoldable pub is_github_dot_com_host : Text → Bool
  is_github_dot_com_host url = github_host (url_host url)

  unfoldable pub drop_github_pages_on_github_dot_com :
      List DetectedTechnology → Text → List DetectedTechnology
  unfolding is_github_dot_com_host
  drop_github_pages_on_github_dot_com techs url =
      if not (is_github_dot_com_host url)
      then techs
      else filter (λ tech. not (text_eq tech.name (codes "GitHub Pages"))) techs

  -- The detection behind the matchers, whose results come in their order.
  unfoldable pub detect_technologies :
      FingerprintRuleset
      → List SignalMatch
      → List SignalMatch
      → List SignalMatch
      → Text
      → List Text
      → List DetectedTechnology
  unfolding merge_all js_matches finalize_detections drop_github_pages_on_github_dot_com
  detect_technologies rules header_results cookie_results body_results url script_tag_ids =
      let observed =
        merge_all (js_matches rules.technologies script_tag_ids)
          (merge_all body_results (merge_all cookie_results (merge_all header_results []))) in
      drop_github_pages_on_github_dot_com
        (finalize_detections (expand_implies observed rules) rules) url

-- More matches merged into a report, as both supplements do.
unfoldable pub supplement_technologies :
    FingerprintRuleset → List DetectedTechnology → List SignalMatch → List DetectedTechnology
unfolding merge_all detected_to_map finalize_detections
supplement_technologies rules already_detected supplemental =
    if is_empty supplemental
    then already_detected
    else finalize_detections
        (expand_implies (merge_all supplemental (detected_to_map already_detected)) rules) rules
