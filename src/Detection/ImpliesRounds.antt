-- ===== src/Detection/ImpliesRounds.antt =====
-- The rounds of `expand_implies` against the steps along `implies`.
use domain_status.Common.{
  ℕ, zero, suc, ◌≡◌, sym, ◌∙◌, ◌↔◌, inl, inr, true, false, Text, if◌then◌else◌, Bool-cases,
}
use domain_status.Detection.Ruleset.{FingerprintRuleset}
use domain_status.Detection.Implies.{
  Detected, implied_to_add, implies_round, implies_rounds, max_implies_depth, expand_implies,
}
use domain_status.Detection.ImpliesLaws.{
  is_detected, WithinImplies, round-is_detected, add_all_implied-same,
}

module _ (rules : FingerprintRuleset) where
  within-round :
      (n : ℕ) (x : Text) (detected : Detected)
      → WithinImplies rules (implies_round rules detected).0 n x
        ↔ WithinImplies rules detected (suc n) x
  within-round zero x detected = round-is_detected rules x detected
  within-round (suc n) x detected = (
    λ h. elim h [
      | inl less ↦ inl ((within-round n x detected).0 less)
      | inr (name, member, step, known) ↦
          inr (name, (within-round n name detected).0 member, step, known)
    ],
    λ h. elim h [
      | inl less ↦ inl ((within-round n x detected).1 less)
      | inr (name, member, step, known) ↦
          inr (name, (within-round n name detected).1 member, step, known)
    ],
  )

  within_observed :
      (n : ℕ) (x : Text) (detected : Detected)
      → is_detected x detected ≡ true
      → WithinImplies rules detected n x
  within_observed zero x detected h = h
  within_observed (suc n) x detected h = inl (within_observed n x detected h)

  round-same :
      (x : Text) (detected : Detected)
      → (implies_round rules detected).1 ≡ false
      → is_detected x (implies_round rules detected).0 ≡ is_detected x detected
  unfolding implies_round
  round-same x detected h =
      add_all_implied-same rules x (implied_to_add rules detected) (detected, false) h

  within_same :
      (n : ℕ) (x : Text) (detected : Detected)
      → (implies_round rules detected).1 ≡ false
      → WithinImplies rules detected n x
      → is_detected x detected ≡ true
  within_same zero x detected h within = within
  within_same (suc n) x detected h (inl less) = within_same n x detected h less
  within_same (suc n) x detected h (inr (name, member, step, known)) =
      sym (round-same x detected h)
      ∙ (round-is_detected rules x detected).1
          (inr (name, within_same n name detected h member, step, known))

  rounds-is_detected :
      (n : ℕ) (x : Text) (detected : Detected)
      → (is_detected x (implies_rounds n rules detected) ≡ true) ↔ WithinImplies rules detected n x
  unfolding implies_rounds
  rounds-is_detected zero x detected = (λ h. h, λ h. h)
  rounds-is_detected (suc n) x detected =
      let round = implies_round rules detected in
      elim (Bool-cases round.1) [
        | inl added ↦
            let ih = rounds-is_detected n x round.0 in
            let step = within-round n x detected in
            rw (added, if◌then◌else◌) (λ h. step.0 (ih.0 h), λ h. ih.1 (step.1 h))
        | inr kept ↦
            rw (kept, if◌then◌else◌)
              (
                λ h. within_observed (suc n) x detected (sym (round-same x detected kept) ∙ h),
                λ h. round-same x detected kept ∙ within_same (suc n) x detected kept h,
              )
      ]

  -- `expand_implies` ends with exactly the technologies that the observed ones imply in at most ten
  -- steps: each step goes from a technology to one of the ruleset that its `implies` names. A round
  -- that adds nothing ends the loop early and loses none of them.
  pub expand_implies-is_detected :
      (x : Text) (detected : Detected)
      → (is_detected x (expand_implies detected rules) ≡ true)
        ↔ WithinImplies rules detected max_implies_depth x
  unfolding expand_implies
  expand_implies-is_detected x detected = rounds-is_detected max_implies_depth x detected
