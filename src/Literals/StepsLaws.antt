-- ===== src/Literals/StepsLaws.antt =====
-- apply_steps against a description without the loop and its early return.
use domain_status.Common.{
  ◌≡◌, refl, inl, inr, Bool, true, false, ◌&&◌, ◌||◌, Option, none, List, [], ◌∷◌, arith, Text, any,
  is_some, if◌then◌else◌, Bool-cases,
}
use domain_status.Literals.Hits.{Word}
use domain_status.Literals.Steps.{
  MatchResult, BodyStep, step_result, first_version, Found, absorb, apply_steps,
}

-- The first version among the results that match.
abbrev pub version_among : List MatchResult → Option Text
version_among [] = none
version_among (r ∷ rs) =
    if r.matched then first_version r.version (version_among rs) else version_among rs

abbrev pub results : List BodyStep → List Word → Text → List MatchResult
results [] hits text = []
results (s ∷ steps) hits text = step_result s hits text ∷ results steps hits text

abbrev pub any_matched : List MatchResult → Bool
any_matched rs = any (λ r. r.matched) rs

-- The outcome of the loop on the results of all steps.
pub record Summary (rs : List MatchResult) (f : Found) (out : Found × Bool) : Type 0 where
  pub matched : out.0.matched ≡ (f.matched || any_matched rs)
  pub version :
      out.0.version
      ≡ (if any_matched rs then first_version f.version (version_among rs) else f.version)
  pub stopped : out.1 ≡ (any_matched rs && is_some out.0.version)

apply_steps_cons :
    (s : BodyStep) (steps : List BodyStep) (hits : List Word) (text : Text) (f : Found)
    → apply_steps (s ∷ steps) hits text f ≡ (
        if (absorb (step_result s hits text) f).1
        then ((absorb (step_result s hits text) f).0, true)
        else apply_steps steps hits text (absorb (step_result s hits text) f).0)
unfolding apply_steps
apply_steps_cons s steps hits text f = refl

Summary-stop :
    (r : MatchResult) (rs : List MatchResult) (f : Found)
    → (absorb r f).1 ≡ true
    → Summary (r ∷ rs) f ((absorb r f).0, true)
Summary-stop r rs f h = record {
  matched = ground arith;
  version = ground arith;
  stopped = ground arith;
}

no_version : (rs : List MatchResult) → any_matched rs ≡ false → version_among rs ≡ none
no_version [] h = refl
no_version (r ∷ rs) h = ground (arith, no_version rs)

Summary-go :
    (r : MatchResult) (rs : List MatchResult) (f : Found) (out : Found × Bool)
    → (absorb r f).1 ≡ false
    → Summary rs (absorb r f).0 out
    → Summary (r ∷ rs) f out
Summary-go r rs f out h v = record {
  matched = ground arith;
  version = ground (arith, no_version rs);
  stopped = ground arith;
}

-- The steps of a technology match exactly when one of them does, and the version is the one that was
-- known, or else the first that a matching step gives; the loop stops early exactly when a step
-- matches and a version is known.
pub apply_steps-Summary :
    (steps : List BodyStep) (hits : List Word) (text : Text) (f : Found)
    → Summary (results steps hits text) f (apply_steps steps hits text f)
apply_steps-Summary [] hits text f =
    unfold apply_steps in
    record { matched = ground arith; version = ground arith; stopped = ground arith }
apply_steps-Summary (s ∷ steps) hits text f =
    let r = step_result s hits text in
    let rs = results steps hits text in
    elim (Bool-cases (absorb r f).1) [
      | inl h ↦
          rw (apply_steps_cons s steps hits text f) (rw (h, if◌then◌else◌) (Summary-stop r rs f h))
      | inr h ↦ rw (apply_steps_cons s steps hits text f) (
          rw (h, if◌then◌else◌)
            (Summary-go r rs f (apply_steps steps hits text (absorb r f).0) h
              (apply_steps-Summary steps hits text (absorb r f).0)))
    ]
