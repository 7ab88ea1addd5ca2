-- ===== src/Detection/VersionLaws.antt =====
-- What is left of the placeholders in an extracted version.
use mathlib.Core.List.{reverse, reverse-reverse, reverse-append}
use domain_status.Common.{
  ℕ, ◌≡◌, refl, sym, ap, ◌∙◌, inl, inr, Bool, true, false, ◌&&◌, ◌||◌, Option, none, some, List, [],
  ◌∷◌, ◌++◌, arith, Text, codes, trim, skip_while, is_whitespace, is_empty, split_char, cons_head,
  strip_prefix, ◌==◌, if◌then◌else◌, Bool-cases,
}
use domain_status.Detection.Version.{
  Captures, backslash, starts_digit, drop_placeholders, expand_template, first_part, cut_semicolon,
  placeholders_in_template, version_of_expression, extract_version_from_template,
}

module _ (is_digit : ℕ → Bool) where
  -- Whether a backslash stands in front of a digit.
  abbrev pub has_placeholder : Text → Bool
  has_placeholder [] = false
  has_placeholder (c ∷ s) = (c == backslash && starts_digit is_digit s) || has_placeholder s

  dropping-starts_digit :
      (s : Text) → starts_digit is_digit (drop_placeholders is_digit true s) ≡ false
  dropping-starts_digit [] = refl
  dropping-starts_digit (c ∷ s) = ground (arith, dropping-starts_digit s)

  kept-starts_digit :
      (s : Text)
      → starts_digit is_digit s ≡ false
      → starts_digit is_digit (drop_placeholders is_digit false s) ≡ false
  kept-starts_digit [] h = refl
  kept-starts_digit (c ∷ s) h = ground (arith, dropping-starts_digit s)

  drop-has_placeholder :
      (dropping : Bool) (s : Text) → has_placeholder (drop_placeholders is_digit dropping s) ≡ false
  drop-has_placeholder dropping [] = refl
  drop-has_placeholder dropping (c ∷ s) =
      ground (arith, drop-has_placeholder true s, drop-has_placeholder false s, kept-starts_digit s)

  prefix-has_placeholder :
      (s t : Text) → has_placeholder (s ++ t) ≡ false → has_placeholder s ≡ false
  prefix-has_placeholder [] t h = refl
  prefix-has_placeholder (c ∷ []) t h = ground arith
  prefix-has_placeholder (c ∷ (d ∷ s)) t h = ground (arith, prefix-has_placeholder (d ∷ s) t)

  suffix-has_placeholder :
      (s t : Text) → has_placeholder (s ++ t) ≡ false → has_placeholder t ≡ false
  suffix-has_placeholder [] t h = h
  suffix-has_placeholder (c ∷ s) t h = suffix-has_placeholder s t (ground arith)

  skip_while-suffix : (p : ℕ → Bool) (s : Text) → (t : Text) × (s ≡ t ++ skip_while p s)
  skip_while-suffix p [] = ([], refl)
  skip_while-suffix p (c ∷ s) =
      let ih : (t : Text) × (s ≡ t ++ skip_while p s) = skip_while-suffix p s in
      elim (Bool-cases (p c)) [
        | inl skipped ↦ (c ∷ ih.0, rw skipped (ap (λ (u : Text). c ∷ u) ih.1))
        | inr kept ↦ ([], rw kept)
      ]

  skip_while-has_placeholder :
      (p : ℕ → Bool) (s : Text)
      → has_placeholder s ≡ false
      → has_placeholder (skip_while p s) ≡ false
  skip_while-has_placeholder p s h =
      let cut = skip_while-suffix p s in
      suffix-has_placeholder cut.0 (skip_while p s) (ap has_placeholder (sym cut.1) ∙ h)

  -- What the second pass of `trim` cuts stands at the end.
  reversed-has_placeholder :
      (p : ℕ → Bool) (s : Text)
      → has_placeholder s ≡ false
      → has_placeholder (reverse (skip_while p (reverse s))) ≡ false
  reversed-has_placeholder p s h =
      let cut = skip_while-suffix p (reverse s) in
      prefix-has_placeholder (reverse (skip_while p (reverse s))) (reverse cut.0) (
        ap has_placeholder (
          sym (reverse-append cut.0 (skip_while p (reverse s)))
          ∙ ap reverse (sym cut.1)
          ∙ reverse-reverse s)
        ∙ h)

  trim-has_placeholder : (s : Text) → has_placeholder s ≡ false → has_placeholder (trim s) ≡ false
  trim-has_placeholder s h =
      reversed-has_placeholder is_whitespace (skip_while is_whitespace s)
        (skip_while-has_placeholder is_whitespace s h)

  -- The first part of a split stands in front.
  split_char-prefix :
      (sep : ℕ) (s : Text)
      → (first : Text) × (parts : List Text) × (t : Text) × (split_char sep s ≡ first ∷ parts)
        × (s ≡ first ++ t)
  split_char-prefix sep [] = ([], [], [], refl, refl)
  split_char-prefix sep (c ∷ s) =
      let ih = split_char-prefix sep s in
      elim (Bool-cases (c == sep)) [
        | inl cut ↦ ([], split_char sep s, c ∷ s, rw cut, refl)
        | inr kept ↦ (
          c ∷ ih.0,
          ih.1,
          ih.2,
          rw (kept, if◌then◌else◌) (ap (cons_head c) ih.3),
          ap (λ (u : Text). c ∷ u) ih.4,
        )
      ]

  first_part-has_placeholder :
      (sep : ℕ) (s : Text)
      → has_placeholder s ≡ false
      → has_placeholder (first_part is_digit (split_char sep s)) ≡ false
  first_part-has_placeholder sep s h =
      let split = split_char-prefix sep s in
      ap (λ (parts : List Text). has_placeholder (first_part is_digit parts)) split.3
      ∙ trim-has_placeholder split.0
          (prefix-has_placeholder split.0 split.2 (ap has_placeholder (sym split.4) ∙ h))

  cut_semicolon-has_placeholder :
      (named : List ℕ) (s : Text)
      → has_placeholder s ≡ false
      → has_placeholder (cut_semicolon is_digit named s) ≡ false
  unfolding cut_semicolon
  cut_semicolon-has_placeholder named s h =
      let first = first_part-has_placeholder b';' s h in ground arith

  cut_result :
      (a b : Bool) (cut : Text) {version : Text}
      → has_placeholder cut ≡ false
      → (if a then none else if b then none else some cut) ≡ some version
      → has_placeholder version ≡ false
  cut_result a b cut clean h = ground arith

  version_of_expression-has_placeholder :
      (expr : Text) (captures : Captures) {version : Text}
      → version_of_expression is_digit expr captures ≡ some version
      → has_placeholder version ≡ false
  unfolding version_of_expression
  version_of_expression-has_placeholder expr captures h =
      let result = drop_placeholders is_digit false (expand_template is_digit expr captures) in
      cut_result (is_empty expr) (is_empty result)
        (cut_semicolon is_digit (placeholders_in_template expr) (trim result))
        (cut_semicolon-has_placeholder (placeholders_in_template expr) (trim result) (
          trim-has_placeholder result
            (drop-has_placeholder false (expand_template is_digit expr captures))))
        h

  stripped-has_placeholder :
      (expr : Option Text) (captures : Captures) {version : Text}
      → elim expr [ none ↦ none | some rest ↦ version_of_expression is_digit (trim rest) captures ]
        ≡ some version
      → has_placeholder version ≡ false
  stripped-has_placeholder none captures h = cc
  stripped-has_placeholder (some rest) captures h =
      version_of_expression-has_placeholder (trim rest) captures h

  -- No version that is extracted has a backslash in front of a digit, whatever the regex captured
  -- and whatever the template says: all that is left of its placeholders is dropped.
  pub extract_version_from_template-has_placeholder :
      (template : Text) (captures : Captures) {version : Text}
      → extract_version_from_template is_digit template captures ≡ some version
      → has_placeholder version ≡ false
  unfolding extract_version_from_template
  extract_version_from_template-has_placeholder template captures h =
      stripped-has_placeholder (strip_prefix (codes "version:") template) captures h
