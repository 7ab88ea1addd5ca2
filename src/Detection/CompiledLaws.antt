-- ===== src/Detection/CompiledLaws.antt =====
-- Patterns compiled at load against the string patterns with their cache.
use domain_status.Common.{
  ◌≡◌, refl, sym, ap, ◌∙◌, inl, inr, Bool, true, false, Option, none, some, [], ◌∷◌, arith, Text,
  is_empty, ltb, if◌then◌else◌, is_some, Bool-cases,
}
use domain_status.Literals.Steps.{MatchResult}
use domain_status.Detection.Version.{Captures}
use domain_status.Detection.Patterns.{
  ParsedPattern, min_pattern_confidence, parse_pattern, is_regex_pattern,
}
use domain_status.Detection.Compiled.{
  Regexes, MatchesByCaptures, Cache, ReturnsInserted, CompiledPattern, captured_match, bare_match,
  evaluate_regex, evaluate, case_insensitive, regex_pattern, compile_parsed, compile_pattern,
  evaluate_compiled, keep_new, or_compile, get_or_compile_regex, match_cached_regex,
  match_cached_literal, matches_parsed, matches_pattern,
}

module _ {R C : Type 0} (e : Regexes R) (m : Cache C R) where
  -- The source that is compiled for the pattern `key`.
  abbrev pub regex_source : Text → Text
  regex_source key = if is_regex_pattern key then key else e.escape key

  -- Each cached regex is what its key's pattern compiles to.
  abbrev pub IsCoherent : C → Type 0
  IsCoherent c =
      (key : Text) (r : R)
      → m.lookup c key ≡ some r
      → e.new (case_insensitive e (regex_source key)) ≡ some r

  module _ (returns : ReturnsInserted m) {c : C} (coherent : IsCoherent c) (key : Text) where
    kept_regex : (r : Option R) (c' : C) (k : Text) → (keep_new e m c' k r).0 ≡ r
    kept_regex none c' k = refl
    kept_regex (some r) c' k = refl

    got_regex :
        (r : Option R)
        → m.lookup c key ≡ r
        → (or_compile e m c (regex_source key) key r).0
          ≡ e.new (case_insensitive e (regex_source key))
    got_regex none h = kept_regex (e.new (case_insensitive e (regex_source key))) c key
    got_regex (some r) h = sym (coherent key r h)

    keep_new-IsCoherent :
        (r : Option R)
        → e.new (case_insensitive e (regex_source key)) ≡ r
        → IsCoherent (keep_new e m c key r).1
    keep_new-IsCoherent none h = coherent
    keep_new-IsCoherent (some r) h = λ k' r' found. elim (returns c key r k' r' found) [
      | inl same ↦
          ap (λ (k : Text). e.new (case_insensitive e (regex_source k))) (sym same.0)
          ∙ h
          ∙ ap some same.1
      | inr old ↦ coherent k' r' old
    ]

    or_compile-IsCoherent :
        (r : Option R) → IsCoherent (or_compile e m c (regex_source key) key r).1
    or_compile-IsCoherent none = keep_new-IsCoherent _ refl
    or_compile-IsCoherent (some r) = coherent

    get_or_compile_regex-compiles :
        (get_or_compile_regex e m (regex_source key) key c).0
        ≡ e.new (case_insensitive e (regex_source key))
    unfolding get_or_compile_regex
    get_or_compile_regex-compiles = got_regex (m.lookup c key) refl

    get_or_compile_regex-IsCoherent :
        IsCoherent (get_or_compile_regex e m (regex_source key) key c).1
    unfolding get_or_compile_regex
    get_or_compile_regex-IsCoherent = or_compile-IsCoherent (m.lookup c key)

  cached_captures :
      (groups : Option Captures) → captured_match e none groups ≡ bare_match e (is_some groups)
  unfolding captured_match
  cached_captures none = refl
  cached_captures (some groups) = refl

  cached_regex :
      MatchesByCaptures e
      → (template : Option Text) (s : Text) (got : Option R × C) (compiled : Option R)
      → got.0 ≡ compiled
      → (match_cached_regex e m template s got).0
        ≡ evaluate_compiled e
            (elim compiled [ none ↦ none | some r ↦ some (CompiledPattern.regex r template) ])
            s
  unfolding match_cached_regex evaluate_compiled evaluate evaluate_regex captured_match
  cached_regex matches template s (none, c) compiled h = rw (← h)
  cached_regex matches none s (some r, c) compiled h =
      rw (← h) (rw (matches r s) (cached_captures (e.captures r s)))
  cached_regex matches (some template) s (some r, c) compiled h = rw (← h)

  cached_literal :
      (s : Text) (got : Option R × C) (compiled : Option R)
      → got.0 ≡ compiled
      → (match_cached_literal e m s got).0
        ≡ evaluate_compiled e
            (elim compiled [ none ↦ none | some r ↦ some (CompiledPattern.regex r none) ])
            s
  unfolding match_cached_literal evaluate_compiled evaluate evaluate_regex
  cached_literal s (none, c) compiled h = rw (← h)
  cached_literal s (some r, c) compiled h = rw (← h)

  abbrev choose : (b : Bool) → ParsedPattern → Text → C → MatchResult × C
  choose b p s c =
      if b
      then match_cached_regex e m p.version_template s
          (get_or_compile_regex e m p.pattern_for_match p.pattern_for_match c)
      else match_cached_literal e m s
          (get_or_compile_regex e m (e.escape p.pattern_for_match) p.pattern_for_match c)

  module _ (matches : MatchesByCaptures e) (returns : ReturnsInserted m) where
    choose-eq :
        (b : Bool) (p : ParsedPattern) (s : Text) {c : C}
        → is_regex_pattern p.pattern_for_match ≡ b
        → IsCoherent c
        → (choose b p s c).0
          ≡ evaluate_compiled e
              (if b
                then regex_pattern e p.pattern_for_match p.version_template
                else regex_pattern e (e.escape p.pattern_for_match) none)
              s
    unfolding regex_pattern
    choose-eq true p s {c} h coherent =
        let got = get_or_compile_regex-compiles returns coherent p.pattern_for_match in
        (cached_regex matches p.version_template s
          (get_or_compile_regex e m p.pattern_for_match p.pattern_for_match c)
          (e.new (case_insensitive e p.pattern_for_match)) (rw (h, if◌then◌else◌) at got))
    choose-eq false p s {c} h coherent =
        let got = get_or_compile_regex-compiles returns coherent p.pattern_for_match in
        (cached_literal s
          (get_or_compile_regex e m (e.escape p.pattern_for_match) p.pattern_for_match c)
          (e.new (case_insensitive e (e.escape p.pattern_for_match)))
          (rw (h, if◌then◌else◌) at got))

    regex_cache :
        (template : Option Text) (s : Text) (got : Option R × C)
        → (match_cached_regex e m template s got).1 ≡ got.1
    unfolding match_cached_regex
    regex_cache template s (none, c) = refl
    regex_cache template s (some r, c) = refl

    literal_cache : (s : Text) (got : Option R × C) → (match_cached_literal e m s got).1 ≡ got.1
    unfolding match_cached_literal
    literal_cache s (none, c) = refl
    literal_cache s (some r, c) = refl

    choose-IsCoherent :
        (b : Bool) (p : ParsedPattern) (s : Text) {c : C}
        → is_regex_pattern p.pattern_for_match ≡ b
        → IsCoherent c
        → IsCoherent (choose b p s c).1
    choose-IsCoherent true p s {c} h coherent =
        rw
          (regex_cache p.version_template s
            (get_or_compile_regex e m p.pattern_for_match p.pattern_for_match c))
          (rw (h, if◌then◌else◌) at
            (get_or_compile_regex-IsCoherent returns coherent p.pattern_for_match))
    choose-IsCoherent false p s {c} h coherent =
        rw
          (literal_cache s
            (get_or_compile_regex e m (e.escape p.pattern_for_match) p.pattern_for_match c))
          (rw (h, if◌then◌else◌) at
            (get_or_compile_regex-IsCoherent returns coherent p.pattern_for_match))

    matches_parsed-eq :
        (p : ParsedPattern) (s : Text) {c : C}
        → IsCoherent c
        → (matches_parsed e m p s c).0 ≡ evaluate_compiled e (compile_parsed e p) s
    unfolding matches_parsed compile_parsed evaluate_compiled evaluate
    matches_parsed-eq p s {c} coherent =
        let chosen = choose-eq (is_regex_pattern p.pattern_for_match) p s refl coherent in
        ground (arith, chosen)

    matches_pattern-IsCoherent :
        (pattern s : Text) {c : C} → IsCoherent c → IsCoherent (matches_pattern e m pattern s c).1
    unfolding matches_pattern matches_parsed
    matches_pattern-IsCoherent pattern s {c} coherent =
        let p = parse_pattern pattern in
        let chosen = choose-IsCoherent (is_regex_pattern p.pattern_for_match) p s refl coherent in
        elim (Bool-cases (ltb p.confidence min_pattern_confidence)) [
          | inl low ↦ rw (low, if◌then◌else◌) coherent
          | inr enough ↦ elim (Bool-cases (is_empty p.pattern_for_match)) [
            | inl blank ↦ rw (enough, blank, if◌then◌else◌) coherent
            | inr solid ↦ rw (enough, solid, if◌then◌else◌) chosen
          ]
        ]

    blank_pattern :
        (s : Text) (c : C)
        → evaluate_compiled e (some (CompiledPattern.any_text none true)) s
          ≡ (matches_pattern e m [] s c).0
    unfolding matches_pattern evaluate_compiled evaluate parse_pattern
    blank_pattern s c = refl

    -- A pattern compiled when the ruleset is loaded finds in every text what `matches_pattern` finds
    -- for its string, match and version, and a dropped pattern finds nothing, given that `is_match`
    -- agrees with `captures` and that each regex in the cache is what its key compiles to. The cache
    -- stays so, whatever it evicts.
    pub compile_pattern-matches_pattern :
        (pattern s : Text) {c : C}
        → IsCoherent c
        → (evaluate_compiled e (compile_pattern e pattern) s ≡ (matches_pattern e m pattern s c).0)
          × IsCoherent (matches_pattern e m pattern s c).1
    unfolding compile_pattern matches_pattern
    compile_pattern-matches_pattern [] s {c} coherent =
        (blank_pattern s c, matches_pattern-IsCoherent [] s coherent)
    compile_pattern-matches_pattern (x ∷ pattern) s {c} coherent = (
      sym (matches_parsed-eq (parse_pattern (x ∷ pattern)) s coherent),
      matches_pattern-IsCoherent (x ∷ pattern) s coherent,
    )
