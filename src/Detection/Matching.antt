-- ===== src/Detection/Matching.antt =====
-- src/fingerprint/detection/matching.rs: which detected technologies exclude another, and which lack
-- what they require. A set is the list of its members in the order of its iteration.
use domain_status.Common.{
  ℕ, zero, suc, Bool, true, false, not, ◌&&◌, ◌||◌, Option, none, some, List, [], ◌∷◌, Text,
  text_eq, is_empty, ◌==◌, if◌then◌else◌, any, has, filter,
}
use domain_status.Detection.Patterns.{parse_technology_reference}
use domain_status.Detection.Ruleset.{Technology, FingerprintRuleset, technology_of}

-- Whether a list of references names the technology.
unfoldable pub references : List Text → Text → Bool
references refs name = any (λ r. text_eq (parse_technology_reference r).0 name) refs

abbrev excludes_name : Option Technology → Text → Bool
excludes_name none name = false
excludes_name (some tech) name = references tech.excludes name

unfoldable pub excludes_technology : FingerprintRuleset → Text → Text → Bool
unfolding references
excludes_technology rules name other =
    not (text_eq other name) && excludes_name (technology_of rules other) name

unfoldable pub is_excluded : FingerprintRuleset → List Text → Text → Bool
unfolding excludes_technology
is_excluded rules detected name = any (excludes_technology rules name) detected

unfoldable pub apply_technology_exclusions : List Text → FingerprintRuleset → List Text
unfolding is_excluded
apply_technology_exclusions detected rules =
    filter (λ name. not (is_excluded rules detected name)) detected

-- Whether each reference names a detected technology.
unfoldable pub has_references : List Text → List Text → Bool
has_references [] detected = true
has_references (r ∷ refs) detected =
    has (parse_technology_reference r).0 detected && has_references refs detected

abbrev pub has_id : ℕ → List ℕ → Bool
has_id i [] = false
has_id i (j ∷ js) = i == j || has_id i js

abbrev pub in_categories : List ℕ → Option Technology → Bool
in_categories wanted none = false
in_categories wanted (some tech) = any (λ id. has_id id wanted) tech.cats

-- Whether `other` is another technology of a wanted category.
unfoldable pub supplies_category : FingerprintRuleset → List ℕ → Text → Text → Bool
supplies_category rules wanted name other =
    not (text_eq other name) && in_categories wanted (technology_of rules other)

abbrev pub requirements_met : FingerprintRuleset → Text → List Text → Option Technology → Bool
requirements_met rules name detected none = true
requirements_met rules name detected (some tech) =
    has_references tech.requires detected
    && (is_empty tech.requires_category
        || any (supplies_category rules tech.requires_category name) detected)

unfoldable pub technology_requires_satisfied : Text → List Text → FingerprintRuleset → Bool
unfolding has_references supplies_category
technology_requires_satisfied name detected rules =
    requirements_met rules name detected (technology_of rules name)

-- The set behind one round.
unfoldable pub requires_round : List Text → FingerprintRuleset → List Text
unfolding technology_requires_satisfied
requires_round remaining rules =
    filter (λ name. technology_requires_satisfied name remaining rules) remaining

-- `dropped_any`.
unfoldable pub drops_any : List Text → FingerprintRuleset → Bool
unfolding technology_requires_satisfied
drops_any remaining rules =
    any (λ name. not (technology_requires_satisfied name remaining rules)) remaining

-- The loop, with the rounds left.
unfoldable pub requires_rounds : ℕ → List Text → FingerprintRuleset → List Text
unfolding requires_round drops_any
requires_rounds zero remaining rules = remaining
requires_rounds (suc n) remaining rules =
    let next = requires_rounds n (requires_round remaining rules) rules in
    if drops_any remaining rules then next else requires_round remaining rules

-- `MAX_REQUIRES_DEPTH`.
abbrev pub max_requires_depth : ℕ
max_requires_depth = 10

unfoldable pub apply_technology_requires : List Text → FingerprintRuleset → List Text
unfolding requires_rounds
apply_technology_requires detected rules = requires_rounds max_requires_depth detected rules
