-- ===== src/Detection/ImpliesLaws.antt =====
-- The technologies that the observed ones imply.
use domain_status.Common.{
  test-respects, ℕ, zero, suc, ◌≡◌, refl, sym, ◌∙◌, ◌↔◌, ◌⊎◌, inl, inr, Bool, true, false, ◌&&◌,
  ◌||◌, Option, none, some, List, [], ◌∷◌, ◌++◌, arith, Text, text_eq, text_eq_iff, if◌then◌else◌,
  Bool-cases, get, is_some,
}
use domain_status.Detection.Ruleset.{FingerprintRuleset, technology_of, is_technology}
use domain_status.Detection.Implies.{
  TechInfo, Detected, sanitize_technology_version, upsert, implied_by, implied_to_add, fill_version,
  implied_info, add_implied, add_all_implied, implies_round,
}

-- `contains_key`.
abbrev pub is_detected : Text → Detected → Bool
is_detected name detected = is_some (get name detected)

-- Whether a parsed reference names the technology.
abbrev pub names : Text → List (Text × Option Text) → Bool
names x [] = false
names x ((name, version) ∷ refs) = text_eq x name || names x refs

abbrev pub implies_technology : FingerprintRuleset → Text → Text → Bool
implies_technology rules name x = names x (implied_by (technology_of rules name))

module _ (modify : TechInfo → TechInfo) (new : TechInfo) (name : Text) where
  abbrev pub put : Option TechInfo → Option TechInfo
  put none = some new
  put (some info) = some (modify info)

  pub get-upsert :
      (x : Text) (detected : Detected)
      → get x (upsert modify new name detected)
        ≡ (if text_eq x name then put (get x detected) else get x detected)
  get-upsert x [] = refl
  get-upsert x ((k, v) ∷ rest) = ground (
    arith,
    get-upsert x rest,
    test-respects (λ t. text_eq x t) name k,
    test-respects (λ t. text_eq t k) x name,
  )

  is_detected-upsert :
      (x : Text) (detected : Detected)
      → is_detected x (upsert modify new name detected) ≡ (text_eq x name || is_detected x detected)
  is_detected-upsert x detected = ground (arith, get-upsert x detected)

names-append :
    (x : Text) (refs more : List (Text × Option Text))
    → names x (refs ++ more) ≡ (names x refs || names x more)
names-append x [] more = refl
names-append x ((name, version) ∷ refs) more = ground (arith, names-append x refs more)

module _ (rules : FingerprintRuleset) where
  is_detected-add_implied :
      (x name : Text) (version : Option Text) (s : Detected × Bool)
      → is_detected x (add_implied rules name version s).0
        ≡ (is_detected x s.0 || (is_technology rules x && text_eq x name))
  unfolding add_implied
  is_detected-add_implied x name version (detected, added) =
      let clean = sanitize_technology_version version in
      let respects = test-respects (λ t. is_technology rules t) x name in
      elim (Bool-cases (is_technology rules name)) [
        | inl known ↦
            rw (known, if◌then◌else◌)
              (is_detected-upsert (fill_version clean) (implied_info clean) name x detected
                ∙ ground (arith, respects))
        | inr unknown ↦ rw (unknown, if◌then◌else◌) (ground (arith, respects))
      ]

  is_detected-add_all_implied :
      (x : Text) (refs : List (Text × Option Text)) (s : Detected × Bool)
      → is_detected x (add_all_implied rules refs s).0
        ≡ (is_detected x s.0 || (is_technology rules x && names x refs))
  unfolding add_all_implied
  is_detected-add_all_implied x [] s = ground arith
  is_detected-add_all_implied x ((name, version) ∷ refs) s =
      is_detected-add_all_implied x refs (add_implied rules name version s)
      ∙ rw (is_detected-add_implied x name version s) (ground arith)

  add_implied-added :
      (name : Text) (version : Option Text) (s : Detected × Bool)
      → s.1 ≡ true
      → (add_implied rules name version s).1 ≡ true
  unfolding add_implied
  add_implied-added name version (detected, added) h =
      elim (Bool-cases (is_technology rules name)) [
        | inl known ↦ rw (known, if◌then◌else◌) (rw (h, ◌||◌))
        | inr unknown ↦ rw (unknown, if◌then◌else◌) h
      ]

  add_all_implied-added :
      (refs : List (Text × Option Text)) (s : Detected × Bool)
      → s.1 ≡ true
      → (add_all_implied rules refs s).1 ≡ true
  unfolding add_all_implied
  add_all_implied-added [] s h = h
  add_all_implied-added ((name, version) ∷ refs) s h =
      add_all_implied-added refs (add_implied rules name version s)
        (add_implied-added name version s h)

  add_implied-same :
      (x name : Text) (version : Option Text) (s : Detected × Bool)
      → (add_implied rules name version s).1 ≡ false
      → is_detected x (add_implied rules name version s).0 ≡ is_detected x s.0
  unfolding add_implied
  add_implied-same x name version (detected, added) h =
      let clean = sanitize_technology_version version in
      let respects = test-respects (λ t. is_detected t detected) x name in
      elim (Bool-cases (is_technology rules name)) [
        | inl known ↦
            let old = rw (known, if◌then◌else◌) at h in
            rw (known, if◌then◌else◌)
              (is_detected-upsert (fill_version clean) (implied_info clean) name x detected
                ∙ ground (arith, respects))
        | inr unknown ↦ rw (unknown, if◌then◌else◌)
      ]

  pub add_all_implied-same :
      (x : Text) (refs : List (Text × Option Text)) (s : Detected × Bool)
      → (add_all_implied rules refs s).1 ≡ false
      → is_detected x (add_all_implied rules refs s).0 ≡ is_detected x s.0
  unfolding add_all_implied
  add_all_implied-same x [] s h = refl
  add_all_implied-same x ((name, version) ∷ refs) s h =
      let next = add_implied rules name version s in
      elim (Bool-cases next.1) [
        | inl added ↦ let stays = add_all_implied-added refs next added in cc
        | inr kept ↦ add_all_implied-same x refs next h ∙ add_implied-same x name version s kept
      ]

  -- The technologies found from the observed ones in at most so many steps along `implies`.
  abbrev pub WithinImplies : Detected → ℕ → Text → Type 0
  WithinImplies detected zero x = is_detected x detected ≡ true
  WithinImplies detected (suc n) x =
      WithinImplies detected n x
      ⊎ ((name : Text) × WithinImplies detected n name
          × (implies_technology rules name x ≡ true)
          × (is_technology rules x ≡ true))

  implied_to_add-names :
      (x : Text) (detected : Detected)
      → names x (implied_to_add rules detected) ≡ true
      → (name : Text) × (is_detected name detected ≡ true)
        × (implies_technology rules name x ≡ true)
  unfolding implied_to_add
  implied_to_add-names x [] h = cc
  implied_to_add-names x ((name, info) ∷ rest) h =
      elim (Bool-cases (implies_technology rules name x)) [
        | inl here ↦ (name, ground (arith, text_eq_iff name name), here)
        | inr other ↦
            let found = implied_to_add-names x rest (
              ground (
                arith,
                names-append x (implied_by (technology_of rules name)) (implied_to_add rules rest),
              )) in
            (found.0, ground (arith, found.1), found.2)
      ]

  names-implied_to_add :
      (x name : Text) (detected : Detected)
      → is_detected name detected ≡ true
      → implies_technology rules name x ≡ true
      → names x (implied_to_add rules detected) ≡ true
  unfolding implied_to_add
  names-implied_to_add x name [] h step = cc
  names-implied_to_add x name ((k, info) ∷ rest) h step =
      names-append x (implied_by (technology_of rules k)) (implied_to_add rules rest)
      ∙ elim (Bool-cases (text_eq name k)) [
        | inl same ↦
            let here = sym (test-respects (λ t. implies_technology rules t x) name k same) ∙ step in
            rw (here, ◌||◌)
        | inr other ↦ rw (names-implied_to_add x name rest (ground arith) step) (ground arith)
      ]

  pub round-is_detected :
      (x : Text) (detected : Detected)
      → (is_detected x (implies_round rules detected).0 ≡ true) ↔ WithinImplies detected 1 x
  unfolding implies_round
  round-is_detected x detected =
      let refs = implied_to_add rules detected in
      let all = is_detected-add_all_implied x refs (detected, false) in
      (
        λ h. elim (Bool-cases (is_detected x detected)) [
          | inl old ↦ inl old
          | inr new ↦
              let found = implied_to_add-names x detected (ground arith) in
              inr (found.0, found.1, found.2, ground arith)
        ],
        λ h. elim h [
          | inl old ↦ ground arith
          | inr (name, member, step, known) ↦
              let named = names-implied_to_add x name detected member step in ground arith
        ],
      )
