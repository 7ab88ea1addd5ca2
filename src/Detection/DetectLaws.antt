-- ===== src/Detection/DetectLaws.antt =====
-- From the matches to the report.
use domain_status.Common.{
  test-respects, ◌≡◌, refl, sym, ap, ◌∙◌, inl, inr, Bool, true, false, not, ◌||◌, Option, none,
  some, List, [], ◌∷◌, arith, Text, codes, text_eq, text_eq_iff, if◌then◌else◌, Bool-cases, get,
  is_some, filter,
}
use domain_status.Detection.Ruleset.{FingerprintRuleset}
use domain_status.Detection.Implies.{TechInfo, Detected, max_implies_depth, expand_implies}
use domain_status.Detection.ImpliesLaws.{is_detected, WithinImplies}
use domain_status.Detection.ImpliesRounds.{expand_implies-is_detected}
use domain_status.Detection.Entries.{KeepsEntry, expand_implies-KeepsEntry}
use domain_status.Detection.Finalize.{
  DetectedTechnology, SignalMatch, keys, report_technology, report_kept, kept_technologies,
  finalize_detections, merge_all, js_matches, is_github_dot_com_host,
  drop_github_pages_on_github_dot_com, detect_technologies,
}
use domain_status.Detection.FinalizeLaws.{passes, report_technology-name}
use domain_status.Detection.MergeLaws.{
  is_matched, IsObserved, merge_all-IsObserved, is_detected-merge_all,
}

-- The technology of that name in a report.
abbrev pub find_technology : Text → List DetectedTechnology → Option DetectedTechnology
find_technology x [] = none
find_technology x (t ∷ techs) = if text_eq x t.name then some t else find_technology x techs

abbrev reported_as : FingerprintRuleset → Text → Option TechInfo → Option DetectedTechnology
reported_as rules x none = none
reported_as rules x (some info) = some (report_technology rules x info)

report_respects :
    (rules : FingerprintRuleset) (x name : Text) (info : TechInfo)
    → text_eq x name ≡ true
    → report_technology rules x info ≡ report_technology rules name info
report_respects rules x name info h =
    ap (λ t. report_technology rules t info) ((text_eq_iff x name).0 h)

find-report_kept :
    (rules : FingerprintRuleset) (kept : List Text) (x : Text) (detected : Detected)
    → find_technology x (report_kept rules kept detected)
      ≡ (if passes rules kept x then reported_as rules x (get x detected) else none)
unfolding report_kept
find-report_kept rules kept x [] = ground arith
find-report_kept rules kept x ((name, info) ∷ rest) =
    let same = test-respects (passes rules kept) x name in
    let ih = find-report_kept rules kept x rest in
    let reported = report_respects rules x name info in
    elim (Bool-cases (passes rules kept name)) [
      | inl p ↦
          rw (p, if◌then◌else◌)
            (ground (arith, ih, same, reported, report_technology-name rules name info))
      | inr p ↦ rw (p, if◌then◌else◌) (ground (arith, ih, same))
    ]

dropped-find :
    (p : Text → Bool) (x : Text) (techs : List DetectedTechnology)
    → p x ≡ false
    → find_technology x (filter (λ tech. p tech.name) techs) ≡ none
dropped-find p x [] h = refl
dropped-find p x (tech ∷ techs) h =
    ground (arith, dropped-find p x techs, test-respects p x tech.name)

find-filter :
    (p : Text → Bool) (x : Text) (techs : List DetectedTechnology) (t : DetectedTechnology)
    → find_technology x (filter (λ tech. p tech.name) techs) ≡ some t
    → find_technology x techs ≡ some t
find-filter p x [] t h = h
find-filter p x (tech ∷ techs) t h =
    ground (arith, find-filter p x techs t, dropped-find p x techs, test-respects p x tech.name)

abbrev pub all_matched :
    Text → List SignalMatch → List SignalMatch → List SignalMatch → List SignalMatch → Bool
all_matched x header_results cookie_results body_results js_results =
    is_matched x js_results
    || is_matched x body_results
    || is_matched x cookie_results
    || is_matched x header_results

-- What the report says of an entry: its flag.
flag-entry :
    (rules : FingerprintRuleset) (x : Text) (b : Bool) (old new : Option TechInfo)
    {t : DetectedTechnology}
    → KeepsEntry old new
    → IsObserved old
    → (if b then reported_as rules x new else none) ≡ some t
    → (t.is_implied ≡ not (is_some old)) × (is_some new ≡ true)
unfolding report_technology
flag-entry rules x b old none keeps observed h = absurd (ground arith)
flag-entry rules x b none (some new) keeps observed h = ground arith
flag-entry rules x b (some old) (some new) keeps observed h = ground arith

module _ (url_host : Text → Option Text) (rules : FingerprintRuleset) (x : Text) where
  find-drop_or :
      (keeps : Bool) (techs : List DetectedTechnology) (t : DetectedTechnology)
      → find_technology x (
          if keeps
          then techs
          else filter (λ tech. not (text_eq tech.name (codes "GitHub Pages"))) techs)
        ≡ some t
      → find_technology x techs ≡ some t
  find-drop_or true techs t h = h
  find-drop_or false techs t h =
      find-filter (λ name. not (text_eq name (codes "GitHub Pages"))) x techs t h

  find-drop_github_pages :
      (techs : List DetectedTechnology) (url : Text) {t : DetectedTechnology}
      → find_technology x (drop_github_pages_on_github_dot_com url_host techs url) ≡ some t
      → find_technology x techs ≡ some t
  unfolding drop_github_pages_on_github_dot_com
  find-drop_github_pages techs url {t} h =
      find-drop_or (not (is_github_dot_com_host url_host url)) techs t h

  -- The map of what the matchers found.
  abbrev pub observed_by :
      List SignalMatch → List SignalMatch → List SignalMatch → List Text → Detected
  observed_by header_results cookie_results body_results script_tag_ids =
      merge_all (js_matches rules.technologies script_tag_ids)
        (merge_all body_results (merge_all cookie_results (merge_all header_results [])))

  is_detected-observed_by :
      (header_results cookie_results body_results : List SignalMatch) (ids : List Text)
      → is_detected x (observed_by header_results cookie_results body_results ids)
        ≡ all_matched x header_results cookie_results body_results
            (js_matches rules.technologies ids)
  is_detected-observed_by header_results cookie_results body_results ids =
      let first = merge_all header_results [] in
      let second = merge_all cookie_results first in
      let third = merge_all body_results second in
      ground (
        arith,
        is_detected-merge_all x header_results [],
        is_detected-merge_all x cookie_results first,
        is_detected-merge_all x body_results second,
        is_detected-merge_all x (js_matches rules.technologies ids) third,
      )

  observed_by-IsObserved :
      (header_results cookie_results body_results : List SignalMatch) (ids : List Text)
      → IsObserved (get x (observed_by header_results cookie_results body_results ids))
  observed_by-IsObserved header_results cookie_results body_results ids =
      let first = merge_all-IsObserved x header_results [] tt in
      let second = merge_all-IsObserved x cookie_results (merge_all header_results []) first in
      let third =
        merge_all-IsObserved x body_results (merge_all cookie_results (merge_all header_results []))
          second in
      merge_all-IsObserved x (js_matches rules.technologies ids)
        (merge_all body_results (merge_all cookie_results (merge_all header_results []))) third

  -- Every technology of the report was matched by a header, a cookie, the body or a script tag's id,
  -- or is implied by matched ones in at most ten steps, and its flag `is_implied` says that no signal
  -- matched it.
  pub detect_technologies-find_technology :
      (header_results cookie_results body_results : List SignalMatch) (url : Text) (ids : List Text)
      {t : DetectedTechnology}
      → find_technology x
          (detect_technologies url_host rules header_results cookie_results body_results url ids)
        ≡ some t
      → WithinImplies rules
          (observed_by header_results cookie_results body_results ids)
          max_implies_depth
          x
        × (t.is_implied
            ≡ not (
                all_matched x header_results cookie_results body_results
                  (js_matches rules.technologies ids)))
  unfolding detect_technologies finalize_detections
  detect_technologies-find_technology header_results cookie_results body_results url ids h =
      let observed = observed_by header_results cookie_results body_results ids in
      let expanded = expand_implies observed rules in
      let kept = kept_technologies rules (keys expanded) in
      let found = find-drop_github_pages (report_kept rules kept expanded) url h in
      let entry =
        flag-entry rules x (passes rules kept x) (get x observed) (get x expanded)
          (expand_implies-KeepsEntry rules x observed)
          (observed_by-IsObserved header_results cookie_results body_results ids)
          (sym (find-report_kept rules kept x expanded) ∙ found) in
      (
        (expand_implies-is_detected rules x observed).0 entry.1,
        entry.0 ∙ ap not (is_detected-observed_by header_results cookie_results body_results ids),
      )
