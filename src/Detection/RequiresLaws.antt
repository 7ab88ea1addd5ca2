-- ===== src/Detection/RequiresLaws.antt =====
-- apply_technology_requires of src/fingerprint/detection/matching.rs against a description of what a
-- technology requires.
use domain_status.Common.{
  ℕ, ◌≤◌, ◌≡◌, ◌≢◌, refl, ◌↔◌, ◌⊎◌, inl, inr, Bool, true, ◌&&◌, ◌||◌, Option, none, some, List, [],
  ◌∷◌, arith, Text, text_eq, text_eq_iff, is_empty, any, All, has, Includes, any-has, has-any,
  length, Bool-cases, Option-cases, ◌==◌, ==_iff,
}
use domain_status.Detection.Patterns.{parse_technology_reference}
use domain_status.Detection.Ruleset.{Technology, FingerprintRuleset, technology_of}
use domain_status.Detection.Matching.{
  has_references, has_id, supplies_category, requirements_met, technology_requires_satisfied,
  apply_technology_requires,
}
use domain_status.Detection.MatchingLaws.{
  apply_technology_requires-has, apply_technology_requires-Includes,
  apply_technology_requires-IsClosed,
}

module _ (rules : FingerprintRuleset) (xs : List Text) where
  -- Among `xs` is another technology of one of the categories.
  abbrev pub HasCategory : Text → List ℕ → Type 0
  HasCategory x wanted =
      (y : Text) × (has y xs ≡ true)
      × (y ≢ x)
      × (other : Technology) × (technology_of rules y ≡ some other)
      × (id : ℕ) × (has_id id other.cats ≡ true)
      × (has_id id wanted ≡ true)

  -- The technologies that `x` requires are all among `xs`, and, if it requires a category, another
  -- technology of one of its categories is; a name that the ruleset lacks requires nothing.
  abbrev pub IsMetBy : Text → Option Technology → Type 0
  IsMetBy x none = Unit
  IsMetBy x (some tech) =
      All (λ r. has (parse_technology_reference r).0 xs ≡ true) tech.requires
      × ((tech.requires_category ≡ []) ⊎ HasCategory x tech.requires_category)

  abbrev pub IsMet : Text → Type 0
  IsMet x = IsMetBy x (technology_of rules x)

  has_references_iff :
      (refs : List Text)
      → (has_references refs xs ≡ true)
        ↔ All (λ r. has (parse_technology_reference r).0 xs ≡ true) refs
  unfolding has_references
  has_references_iff [] = (λ h. tt, λ h. refl)
  has_references_iff (r ∷ refs) =
      let ih = has_references_iff refs in
      (λ h. (ground arith, ih.0 (ground arith)), λ h. ground (arith, h.0, ih.1 h.1))

  any-has_id :
      (wanted ids : List ℕ)
      → any (λ id. has_id id wanted) ids ≡ true
      → (id : ℕ) × (has_id id ids ≡ true) × (has_id id wanted ≡ true)
  any-has_id wanted [] h = cc
  any-has_id wanted (i ∷ ids) h = elim (Bool-cases (has_id i wanted)) [
    | inl here ↦ (i, ground arith, here)
    | inr other ↦
        let (id, member, found) = any-has_id wanted ids (ground arith) in
        (id, ground (arith, member), found)
  ]

  has_id-any :
      (wanted ids : List ℕ) (id : ℕ)
      → has_id id ids ≡ true
      → has_id id wanted ≡ true
      → any (λ i. has_id i wanted) ids ≡ true
  has_id-any wanted [] id h k = cc
  has_id-any wanted (i ∷ ids) id h k = elim (Bool-cases (id == i)) [
    | inl same ↦
        let e : id ≡ i = (==_iff id i).0 same in
        let here : has_id i wanted ≡ true = rw e at k in ground (arith, here)
    | inr other ↦ ground (arith, has_id-any wanted ids id)
  ]

  supplies-HasCategory :
      (x : Text) (wanted : List ℕ)
      → any (supplies_category rules wanted x) xs ≡ true
      → HasCategory x wanted
  unfolding supplies_category
  supplies-HasCategory x wanted h =
      let (y, member, s) = any-has (supplies_category rules wanted x) xs h in
      elim (Option-cases (technology_of rules y)) [
        | inl unknown ↦ absurd (ground arith)
        | inr (other, got) ↦
            let cats : any (λ id. has_id id wanted) other.cats ≡ true = ground arith in
            let (id, its, wants) = any-has_id wanted other.cats cats in
            (y, member, λ e. ground (arith, (text_eq_iff y x).1 e), other, got, id, its, wants)
      ]

  HasCategory-supplies :
      (x : Text) (wanted : List ℕ)
      → HasCategory x wanted
      → any (supplies_category rules wanted x) xs ≡ true
  unfolding supplies_category
  HasCategory-supplies x wanted (y, member, apart, other, got, id, its, wants) =
      has-any (supplies_category rules wanted x) y xs member (elim (Bool-cases (text_eq y x)) [
        | inl same ↦ absurd (apart ((text_eq_iff y x).0 same))
        | inr differ ↦ rw (differ, got) (has_id-any wanted other.cats id its wants)
      ])

  category_iff :
      (x : Text) (wanted : List ℕ)
      → ((is_empty wanted || any (supplies_category rules wanted x) xs) ≡ true)
        ↔ ((wanted ≡ []) ⊎ HasCategory x wanted)
  category_iff x [] = (λ h. inl refl, λ h. refl)
  category_iff x (i ∷ wanted) = (λ h. inr (supplies-HasCategory x (i ∷ wanted) h), back)
    where
      back :
          ((i ∷ wanted) ≡ []) ⊎ HasCategory x (i ∷ wanted)
          → any (supplies_category rules (i ∷ wanted) x) xs ≡ true
      back (inl e) = cc
      back (inr h) = HasCategory-supplies x (i ∷ wanted) h

  both_iff :
      {A B : Type 0} (a b : Bool) → (a ≡ true) ↔ A → (b ≡ true) ↔ B → ((a && b) ≡ true) ↔ (A × B)
  both_iff a b f g =
      (λ h. (f.0 (ground arith), g.0 (ground arith)), λ h. ground (arith, f.1 h.0, g.1 h.1))

  requirements_met_iff :
      (x : Text) (o : Option Technology) → (requirements_met rules x xs o ≡ true) ↔ IsMetBy x o
  requirements_met_iff x none = (λ h. tt, λ h. refl)
  requirements_met_iff x (some tech) =
      both_iff _ _ (has_references_iff tech.requires) (category_iff x tech.requires_category)

  -- The test of a technology is the description.
  technology_requires_satisfied_iff :
      (x : Text) → (technology_requires_satisfied x xs rules ≡ true) ↔ IsMet x
  unfolding technology_requires_satisfied
  technology_requires_satisfied_iff x = requirements_met_iff x (technology_of rules x)

-- A set of technologies in which the requirements of each are met.
abbrev pub IsSelfMet : FingerprintRuleset → List Text → Type 0
IsSelfMet rules xs = (x : Text) → has x xs ≡ true → IsMet rules xs x

-- Of at most ten detected technologies apply_technology_requires keeps exactly those that belong to a
-- set of detected technologies in which the requirements of each member are met.
pub apply_technology_requires-IsSelfMet :
    (detected : List Text) (rules : FingerprintRuleset) (x : Text)
    → length detected ≤ 10
    → (has x (apply_technology_requires detected rules) ≡ true) ↔ (
        (members : List Text) × (has x members ≡ true)
        × Includes members detected
        × IsSelfMet rules members)
apply_technology_requires-IsSelfMet detected rules x h = (
  λ kept. (
    apply_technology_requires detected rules,
    kept,
    λ y member. apply_technology_requires-has y detected rules member,
    λ y member.
        (technology_requires_satisfied_iff rules (apply_technology_requires detected rules) y).0
          (apply_technology_requires-IsClosed detected rules h y member),
  ),
  λ found.
      apply_technology_requires-Includes found.0 detected rules
        (λ y member. (technology_requires_satisfied_iff rules found.0 y).1 (found.3 y member))
        found.2 x found.1,
)
