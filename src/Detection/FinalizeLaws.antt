-- ===== src/Detection/FinalizeLaws.antt =====
-- What is reported of the detected technologies, and the way back from a report.
use domain_status.Common.{
  has-any, test-respects, ◌≡◌, refl, ◌∙◌, inl, inr, Bool, true, false, not, ◌&&◌, Option, none,
  some, List, [], ◌∷◌, arith, Text, text_eq, if◌then◌else◌, any, has, Bool-cases, get, is_some,
}
use domain_status.Detection.Ruleset.{
  FingerprintRuleset, DetectionSource, as_str, parse_detection_source,
}
use domain_status.Detection.Matching.{excludes_technology, is_excluded, apply_technology_exclusions}
use domain_status.Detection.MatchingLaws.{
  has-apply_technology_exclusions, apply_technology_requires-has,
}
use domain_status.Detection.Implies.{TechInfo, Detected, upsert}
use domain_status.Detection.ImpliesLaws.{is_detected, get-upsert}
use domain_status.Detection.Finalize.{
  DetectedTechnology, is_denylisted_technology, keys, report_technology, report_kept,
  kept_technologies, finalize_detections, info_of, insert_all, detected_to_map,
}

-- Whether the report has the technology.
abbrev pub is_reported : Text → List DetectedTechnology → Bool
is_reported x techs = any (λ t. text_eq x t.name) techs

-- The two filters.
abbrev pub passes : FingerprintRuleset → List Text → Text → Bool
passes rules kept x = has x kept && not (is_denylisted_technology x rules)

module _ (rules : FingerprintRuleset) (kept : List Text) where
  is_reported-report_kept :
      (x : Text) (detected : Detected)
      → is_reported x (report_kept rules kept detected)
        ≡ (is_detected x detected && passes rules kept x)
  unfolding report_kept
  is_reported-report_kept x [] = refl
  is_reported-report_kept x ((name, info) ∷ rest) =
      ground (arith, is_reported-report_kept x rest, test-respects (passes rules kept) x name)

is_detected-keys : (x : Text) (detected : Detected) → is_detected x detected ≡ has x (keys detected)
is_detected-keys x [] = refl
is_detected-keys x ((name, info) ∷ rest) = ground (arith, is_detected-keys x rest)

is_reported-finalize_detections :
    (x : Text) (detected : Detected) (rules : FingerprintRuleset)
    → is_reported x (finalize_detections detected rules)
      ≡ (is_detected x detected && passes rules (kept_technologies rules (keys detected)) x)
unfolding finalize_detections
is_reported-finalize_detections x detected rules =
    is_reported-report_kept rules (kept_technologies rules (keys detected)) x detected

kept-is_excluded :
    (x : Text) (names : List Text) (rules : FingerprintRuleset)
    → has x (kept_technologies rules names) ≡ true
    → is_excluded rules names x ≡ false
unfolding kept_technologies
kept-is_excluded x names rules h = ground (
  arith,
  apply_technology_requires-has x (apply_technology_exclusions names rules) rules,
  has-apply_technology_exclusions x names rules,
)

-- No reported technology excludes another reported one, and none is denylisted.
pub finalize_detections-excludes_technology :
    (x y : Text) (detected : Detected) (rules : FingerprintRuleset)
    → is_reported x (finalize_detections detected rules) ≡ true
    → is_reported y (finalize_detections detected rules) ≡ true
    → (excludes_technology rules x y ≡ false) × (is_denylisted_technology x rules ≡ false)
unfolding is_excluded
finalize_detections-excludes_technology x y detected rules hx hy =
    elim (Bool-cases (excludes_technology rules x y)) [
      | inl excludes ↦
          let clear =
            kept-is_excluded x (keys detected) rules
              (ground (arith, is_reported-finalize_detections x detected rules)) in
          let member : has y (keys detected) ≡ true = ground (
            arith,
            is_reported-finalize_detections y detected rules,
            is_detected-keys y detected,
          ) in
          let excluded = has-any (excludes_technology rules x) y (keys detected) member excludes in
          cc
      | inr apart ↦ (apart, ground (arith, is_reported-finalize_detections x detected rules))
    ]

-- A source written to a report is read back.
parse_detection_source-as_str :
    (source : DetectionSource) → parse_detection_source (as_str source) ≡ some source
unfolding parse_detection_source as_str
parse_detection_source-as_str DetectionSource.header = refl
parse_detection_source-as_str DetectionSource.cookie = refl
parse_detection_source-as_str DetectionSource.html = refl
parse_detection_source-as_str DetectionSource.script_src = refl
parse_detection_source-as_str DetectionSource.scripts = refl
parse_detection_source-as_str DetectionSource.url = refl
parse_detection_source-as_str DetectionSource.js = refl
parse_detection_source-as_str DetectionSource.ns = refl
parse_detection_source-as_str DetectionSource.cname = refl
parse_detection_source-as_str DetectionSource.cert = refl
parse_detection_source-as_str DetectionSource.implied = refl

info_of-report_technology :
    (rules : FingerprintRuleset) (name : Text) (info : TechInfo)
    → info_of (report_technology rules name info) ≡ info
unfolding info_of report_technology
info_of-report_technology rules name info =
    ground (arith, parse_detection_source-as_str info.source)

-- Whether no key stands twice, as in every map.
abbrev pub distinct_keys : Detected → Bool
distinct_keys [] = true
distinct_keys ((name, info) ∷ rest) = not (is_detected name rest) && distinct_keys rest

pub report_technology-name :
    (rules : FingerprintRuleset) (name : Text) (info : TechInfo)
    → (report_technology rules name info).name ≡ name
unfolding report_technology
report_technology-name rules name info = refl

absent_or :
    (b : Bool) (entry : Option TechInfo)
    → (if b && is_some entry then entry else none) ≡ (if b then entry else none)
absent_or b entry = ground arith

module _ (rules : FingerprintRuleset) (kept : List Text) (x : Text) where
  get-insert_all :
      (detected before : Detected)
      → distinct_keys detected ≡ true
      → get x (insert_all (report_kept rules kept detected) before)
        ≡ (if passes rules kept x && is_detected x detected then get x detected else get x before)
  unfolding insert_all report_kept
  get-insert_all [] before h = ground arith
  get-insert_all ((name, info) ∷ rest) before h =
      let t = report_technology rules name info in
      let after = upsert (λ old. info_of t) (info_of t) t.name before in
      let put_here = get-upsert (λ old. info_of t) (info_of t) t.name x before in
      let same = test-respects (passes rules kept) x name in
      let alone = test-respects (λ k. is_detected k rest) x name in
      let read = info_of-report_technology rules name info in
      let named = report_technology-name rules name info in
      elim (Bool-cases (passes rules kept name)) [
        | inl p ↦
            rw (p, if◌then◌else◌)
              (get-insert_all rest after (ground arith)
                ∙ rw put_here (rw (read, named) (ground arith)))
        | inr p ↦ rw (p, if◌then◌else◌) (get-insert_all rest before (ground arith) ∙ ground arith)
      ]

-- A report read back is the map behind it: `detected_to_map` of what `finalize_detections` reports has
-- for each technology that the filters let through its entry, with version, flag and source, and
-- nothing for any other, given that no key stands twice in the map.
pub detected_to_map-finalize_detections :
    (x : Text) (detected : Detected) (rules : FingerprintRuleset)
    → distinct_keys detected ≡ true
    → get x (detected_to_map (finalize_detections detected rules))
      ≡ (if passes rules (kept_technologies rules (keys detected)) x then get x detected else none)
unfolding detected_to_map finalize_detections
detected_to_map-finalize_detections x detected rules h =
    get-insert_all rules (kept_technologies rules (keys detected)) x detected [] h
    ∙ absent_or (passes rules (kept_technologies rules (keys detected)) x) (get x detected)
