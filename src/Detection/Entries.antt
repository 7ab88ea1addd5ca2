-- ===== src/Detection/Entries.antt =====
-- The entries of the detected technologies behind `expand_implies`.
use domain_status.Common.{
  ℕ, zero, suc, ◌≡◌, refl, ◌∙◌, inl, inr, Bool, true, false, Option, none, some, List, [], ◌∷◌,
  arith, Text, text_eq, if◌then◌else◌, Bool-cases, get,
}
use domain_status.Detection.Ruleset.{FingerprintRuleset, is_technology, DetectionSource}
use domain_status.Detection.Implies.{
  TechInfo, Detected, sanitize_technology_version, or_version, upsert, implied_to_add, fill_version,
  implied_info, add_implied, add_all_implied, implies_round, implies_rounds, max_implies_depth,
  expand_implies,
}
use domain_status.Detection.ImpliesLaws.{put, get-upsert}

-- What becomes of the entry of a technology: one that was there keeps its flag, its source and a
-- version that it had, and a new one is implied.
abbrev pub KeepsEntry : Option TechInfo → Option TechInfo → Type 0
KeepsEntry none none = Unit {0}
KeepsEntry none (some new) = (new.is_implied ≡ true) × (new.source ≡ DetectionSource.implied)
KeepsEntry (some old) none = ⊥
KeepsEntry (some old) (some new) =
    (new.is_implied ≡ old.is_implied)
    × (new.source ≡ old.source)
    × (or_version old.version new.version ≡ new.version)

KeepsEntry-refl : (a : Option TechInfo) → KeepsEntry a a
KeepsEntry-refl none = tt
KeepsEntry-refl (some info) = (refl, refl, ground arith)

KeepsEntry-trans : (a b c : Option TechInfo) → KeepsEntry a b → KeepsEntry b c → KeepsEntry a c
KeepsEntry-trans none none c h k = k
KeepsEntry-trans none (some b) none h k = absurd k
KeepsEntry-trans none (some b) (some c) h k = (k.0 ∙ h.0, k.1 ∙ h.1)
KeepsEntry-trans (some a) none c h k = absurd h
KeepsEntry-trans (some a) (some b) none h k = absurd k
KeepsEntry-trans (some a) (some b) (some c) h k = (k.0 ∙ h.0, k.1 ∙ h.1, ground arith)

put-KeepsEntry :
    (clean : Option Text) (a : Option TechInfo)
    → KeepsEntry a (put (fill_version clean) (implied_info clean) [] a)
put-KeepsEntry clean none = (refl, refl)
put-KeepsEntry clean (some info) = (refl, refl, ground arith)

module _ (rules : FingerprintRuleset) (x : Text) where
  upsert-KeepsEntry :
      (clean : Option Text) (name : Text) (detected : Detected)
      → KeepsEntry
          (get x detected)
          (get x (upsert (fill_version clean) (implied_info clean) name detected))
  upsert-KeepsEntry clean name detected =
      rw (get-upsert (fill_version clean) (implied_info clean) name x detected)
        (elim (Bool-cases (text_eq x name)) [
          | inl same ↦ rw (same, if◌then◌else◌) (put-KeepsEntry clean (get x detected))
          | inr other ↦ rw (other, if◌then◌else◌) (KeepsEntry-refl (get x detected))
        ])

  add_implied-KeepsEntry :
      (name : Text) (version : Option Text) (s : Detected × Bool)
      → KeepsEntry (get x s.0) (get x (add_implied rules name version s).0)
  unfolding add_implied
  add_implied-KeepsEntry name version (detected, added) =
      elim (Bool-cases (is_technology rules name)) [
        | inl known ↦
            rw (known, if◌then◌else◌)
              (upsert-KeepsEntry (sanitize_technology_version version) name detected)
        | inr unknown ↦ rw (unknown, if◌then◌else◌) (KeepsEntry-refl (get x detected))
      ]

  add_all_implied-KeepsEntry :
      (refs : List (Text × Option Text)) (s : Detected × Bool)
      → KeepsEntry (get x s.0) (get x (add_all_implied rules refs s).0)
  unfolding add_all_implied
  add_all_implied-KeepsEntry [] s = KeepsEntry-refl (get x s.0)
  add_all_implied-KeepsEntry ((name, version) ∷ refs) s =
      let next = add_implied rules name version s in
      KeepsEntry-trans (get x s.0) (get x next.0) (get x (add_all_implied rules refs next).0)
        (add_implied-KeepsEntry name version s) (add_all_implied-KeepsEntry refs next)

  rounds-KeepsEntry :
      (n : ℕ) (detected : Detected)
      → KeepsEntry (get x detected) (get x (implies_rounds n rules detected))
  unfolding implies_rounds implies_round
  rounds-KeepsEntry zero detected = KeepsEntry-refl (get x detected)
  rounds-KeepsEntry (suc n) detected =
      let round = add_all_implied rules (implied_to_add rules detected) (detected, false) in
      let kept = add_all_implied-KeepsEntry (implied_to_add rules detected) (detected, false) in
      elim (Bool-cases round.1) [
        | inl added ↦
            rw (added, if◌then◌else◌)
              (KeepsEntry-trans (get x detected) (get x round.0)
                (get x (implies_rounds n rules round.0)) kept (rounds-KeepsEntry n round.0))
        | inr same ↦ rw (same, if◌then◌else◌) kept
      ]

  -- `expand_implies` loses no technology: one that was there keeps its flag `is_implied`, its source
  -- and a version that it had, and each one that it adds is marked as implied, in flag and source.
  pub expand_implies-KeepsEntry :
      (detected : Detected) → KeepsEntry (get x detected) (get x (expand_implies detected rules))
  unfolding expand_implies
  expand_implies-KeepsEntry detected = rounds-KeepsEntry max_implies_depth detected
