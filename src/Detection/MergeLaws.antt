-- ===== src/Detection/MergeLaws.antt =====
-- The map that the matches are merged into.
use domain_status.Common.{
  ◌≡◌, refl, ◌∙◌, inl, inr, Bool, false, ◌||◌, Option, none, some, List, [], ◌∷◌, arith, Text,
  text_eq, if◌then◌else◌, any, Bool-cases, get,
}
use domain_status.Detection.Ruleset.{DetectionSource}
use domain_status.Detection.Implies.{
  TechInfo, Detected, sanitize_technology_version, observe_again, merge_observed,
}
use domain_status.Detection.ImpliesLaws.{is_detected, put, get-upsert}
use domain_status.Detection.Finalize.{SignalMatch, merge_all}

-- Whether a match names the technology.
abbrev pub is_matched : Text → List SignalMatch → Bool
is_matched x results = any (λ r. text_eq x r.tech_name) results

-- An entry that no `implies` made.
abbrev pub IsObserved : Option TechInfo → Type 0
IsObserved none = Unit {0}
IsObserved (some info) = info.is_implied ≡ false

put-IsObserved :
    (version : Option Text) (source : DetectionSource) (name : Text) (entry : Option TechInfo)
    → IsObserved (
        put
          (observe_again version source)
          (record { version = version; is_implied = false; source = source })
          name
          entry)
put-IsObserved version source name none = refl
put-IsObserved version source name (some info) = refl

module _ (x : Text) where
  merge_observed-IsObserved :
      (detected : Detected) (name : Text) (version : Option Text) (source : DetectionSource)
      → IsObserved (get x detected)
      → IsObserved (get x (merge_observed detected name version source))
  unfolding merge_observed
  merge_observed-IsObserved detected name version source h =
      let clean = sanitize_technology_version version in
      rw
        (get-upsert (observe_again clean source)
          (record { version = clean; is_implied = false; source = source }) name x detected)
        (elim (Bool-cases (text_eq x name)) [
          | inl same ↦ rw (same, if◌then◌else◌) (put-IsObserved clean source name (get x detected))
          | inr other ↦ rw (other, if◌then◌else◌) h
        ])

  is_detected-merge_observed :
      (detected : Detected) (name : Text) (version : Option Text) (source : DetectionSource)
      → is_detected x (merge_observed detected name version source)
        ≡ (text_eq x name || is_detected x detected)
  unfolding merge_observed
  is_detected-merge_observed detected name version source =
      let clean = sanitize_technology_version version in
      ground (
        arith,
        get-upsert (observe_again clean source)
            (record { version = clean; is_implied = false; source = source }) name x detected,
      )

  pub merge_all-IsObserved :
      (results : List SignalMatch) (detected : Detected)
      → IsObserved (get x detected)
      → IsObserved (get x (merge_all results detected))
  unfolding merge_all
  merge_all-IsObserved [] detected h = h
  merge_all-IsObserved (r ∷ results) detected h =
      merge_all-IsObserved results (merge_observed detected r.tech_name r.version r.source)
        (merge_observed-IsObserved detected r.tech_name r.version r.source h)

  pub is_detected-merge_all :
      (results : List SignalMatch) (detected : Detected)
      → is_detected x (merge_all results detected)
        ≡ (is_matched x results || is_detected x detected)
  unfolding merge_all
  is_detected-merge_all [] detected = refl
  is_detected-merge_all (r ∷ results) detected =
      is_detected-merge_all results (merge_observed detected r.tech_name r.version r.source)
      ∙ rw (is_detected-merge_observed detected r.tech_name r.version r.source) (ground arith)
