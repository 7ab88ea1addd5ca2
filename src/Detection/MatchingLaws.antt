-- ===== src/Detection/MatchingLaws.antt =====
-- Exclusions and requirements, as sets.
use domain_status.Common.{
  has-filter, Includes, any-Includes, filter-length, filter-all, all-has, ℕ, zero, suc, ◌≤◌, ◌≡◌,
  refl, inl, inr, Bool, true, not, ◌&&◌, List, [], ◌∷◌, arith, Text, if◌then◌else◌, has, filter,
  length, Bool-cases, Option-cases,
}
use domain_status.Detection.Patterns.{parse_technology_reference}
use domain_status.Detection.Ruleset.{FingerprintRuleset, technology_of}
use domain_status.Detection.Matching.{
  is_excluded, apply_technology_exclusions, has_references, supplies_category,
  technology_requires_satisfied, requires_round, drops_any, requires_rounds, max_requires_depth,
  apply_technology_requires,
}

-- A technology stays behind the exclusions exactly if it was detected and no other detected
-- technology lists it in its `excludes`.
pub has-apply_technology_exclusions :
    (name : Text) (detected : List Text) (rules : FingerprintRuleset)
    → has name (apply_technology_exclusions detected rules)
      ≡ (has name detected && not (is_excluded rules detected name))
unfolding apply_technology_exclusions
has-apply_technology_exclusions name detected rules =
    has-filter (λ n. not (is_excluded rules detected n)) name detected

has_references-Includes :
    (refs xs ys : List Text)
    → Includes xs ys
    → has_references refs xs ≡ true
    → has_references refs ys ≡ true
unfolding has_references
has_references-Includes [] xs ys included h = refl
has_references-Includes (r ∷ refs) xs ys included h =
    ground (
      arith,
      included (parse_technology_reference r).0,
      has_references-Includes refs xs ys included,
    )

-- What is met among some technologies is met among more.
satisfied-Includes :
    (name : Text) (xs ys : List Text) (rules : FingerprintRuleset)
    → Includes xs ys
    → technology_requires_satisfied name xs rules ≡ true
    → technology_requires_satisfied name ys rules ≡ true
unfolding technology_requires_satisfied
satisfied-Includes name xs ys rules included h = elim (Option-cases (technology_of rules name)) [
  | inr (tech, got) ↦ ground (
    arith,
    has_references-Includes tech.requires xs ys included,
    any-Includes (supplies_category rules tech.requires_category name) xs ys included,
  )
  | inl unknown ↦ ground arith
]

abbrev pub IsClosed : FingerprintRuleset → List Text → Type 0
IsClosed rules xs = (x : Text) → has x xs ≡ true → technology_requires_satisfied x xs rules ≡ true

round-Includes :
    (xs ys : List Text) (rules : FingerprintRuleset)
    → IsClosed rules xs
    → Includes xs ys
    → Includes xs (requires_round ys rules)
unfolding requires_round
round-Includes xs ys rules closed included = λ x member. ground (
  arith,
  has-filter (λ n. technology_requires_satisfied n ys rules) x ys,
  included x member,
  satisfied-Includes x xs ys rules included (closed x member),
)

rounds-Includes :
    (n : ℕ) (xs ys : List Text) (rules : FingerprintRuleset)
    → IsClosed rules xs
    → Includes xs ys
    → Includes xs (requires_rounds n ys rules)
unfolding requires_rounds
rounds-Includes zero xs ys rules closed included = included
rounds-Includes (suc n) xs ys rules closed included =
    let round = round-Includes xs ys rules closed included in
    let rest = rounds-Includes n xs (requires_round ys rules) rules closed round in
    elim (Bool-cases (drops_any ys rules)) [
      | inl drops ↦ rw (drops, if◌then◌else◌) rest
      | inr keeps ↦ rw (keeps, if◌then◌else◌) round
    ]

rounds-IsClosed :
    (n : ℕ) (xs : List Text) (rules : FingerprintRuleset)
    → length xs ≤ n
    → IsClosed rules (requires_rounds n xs rules)
unfolding requires_rounds requires_round drops_any
rounds-IsClosed zero [] rules h = λ x member. cc
rounds-IsClosed zero (y ∷ xs) rules h = absurd (omega arith)
rounds-IsClosed (suc n) xs rules h =
    let p : Text → Bool = λ name. technology_requires_satisfied name xs rules in
    elim (Bool-cases (drops_any xs rules)) [
      | inl drops ↦
          rw (drops, if◌then◌else◌)
            (rounds-IsClosed n (filter p xs) rules
              (let less = (filter-length p xs).1 drops in omega arith))
      | inr keeps ↦
          rw (keeps, if◌then◌else◌)
            (rw (filter-all p xs keeps) (λ x member. all-has p x xs keeps member))
    ]

rounds-has :
    (n : ℕ) (x : Text) (xs : List Text) (rules : FingerprintRuleset)
    → has x (requires_rounds n xs rules) ≡ true
    → has x xs ≡ true
unfolding requires_rounds requires_round
rounds-has zero x xs rules h = h
rounds-has (suc n) x xs rules h =
    let p : Text → Bool = λ name. technology_requires_satisfied name xs rules in
    ground (arith, rounds-has n x (filter p xs) rules, has-filter p x xs)

-- What `apply_technology_requires` keeps was detected.
pub apply_technology_requires-has :
    (x : Text) (detected : List Text) (rules : FingerprintRuleset)
    → has x (apply_technology_requires detected rules) ≡ true
    → has x detected ≡ true
unfolding apply_technology_requires
apply_technology_requires-has x detected rules h = rounds-has max_requires_depth x detected rules h

-- Of the detected technologies `apply_technology_requires` keeps every set whose members' required
-- technologies and categories are found in that set; its ten rounds drop no such member.
pub apply_technology_requires-Includes :
    (closed_set detected : List Text) (rules : FingerprintRuleset)
    → IsClosed rules closed_set
    → Includes closed_set detected
    → Includes closed_set (apply_technology_requires detected rules)
unfolding apply_technology_requires
apply_technology_requires-Includes closed_set detected rules closed included =
    rounds-Includes max_requires_depth closed_set detected rules closed included

-- Of at most ten detected technologies, each one that `apply_technology_requires` keeps has its
-- requirements met among those kept.
pub apply_technology_requires-IsClosed :
    (detected : List Text) (rules : FingerprintRuleset)
    → length detected ≤ max_requires_depth
    → IsClosed rules (apply_technology_requires detected rules)
unfolding apply_technology_requires
apply_technology_requires-IsClosed detected rules h =
    rounds-IsClosed max_requires_depth detected rules h
