-- ===== src/Detection/Compiled.antt =====
-- src/fingerprint/patterns/compiled.rs and the string patterns of patterns/mod.rs over the regex
-- crate and the cache of the moka crate, which are parameters.
use domain_status.Common.{
  ℕ, ◌≡◌, ◌⊎◌, Bool, true, false, Option, none, some, List, [], ◌∷◌, ◌++◌, Text, codes, is_empty,
  ltb, if◌then◌else◌, is_some,
}
use domain_status.Literals.Steps.{MatchResult, no_match, handle_empty_pattern}
use domain_status.Detection.Version.{Captures, extract_version_from_template}
use domain_status.Detection.Patterns.{
  ParsedPattern, min_pattern_confidence, parse_pattern, is_regex_pattern,
}

-- What the program calls of the regex crate; `R` is the type of a compiled regex.
pub record Regexes (R : Type 0) : Type 0 where
  pub new : Text → Option R
  pub captures : R → Text → Option Captures
  pub is_match : R → Text → Bool
  pub escape : Text → Text
  pub is_digit : ℕ → Bool

-- `is_match` says whether `captures` returns groups.
abbrev pub MatchesByCaptures : {R : Type 0} → Regexes R → Type 0
MatchesByCaptures {R} e = (r : R) (s : Text) → e.is_match r s ≡ is_some (e.captures r s)

-- What the program calls of the moka cache; an insertion may evict any entry.
pub record Cache (C R : Type 0) : Type 0 where
  pub lookup : C → Text → Option R
  pub insert : C → Text → R → C

-- A cache returns nothing but what was inserted under that key.
abbrev pub ReturnsInserted : {C R : Type 0} → Cache C R → Type 0
ReturnsInserted {C} {R} m =
    (c : C) (k : Text) (r : R) (k' : Text) (r' : R)
    → m.lookup (m.insert c k r) k' ≡ some r'
    → ((k ≡ k') × (r ≡ r')) ⊎ (m.lookup c k' ≡ some r')

pub data CompiledPattern (R : Type 0) : Type 0 where
  any_text : Option Text → Bool → CompiledPattern R
  regex : R → Option Text → CompiledPattern R

module _ {R : Type 0} (e : Regexes R) where
  unfoldable pub presence_only : CompiledPattern R → Bool
  presence_only (any_text template only) = only
  presence_only (regex r template) = false

  -- A match with its version, from the template and the groups.
  unfoldable pub captured_match : Option Text → Option Captures → MatchResult
  captured_match template none = no_match
  captured_match none (some groups) = record { matched = true; version = none }
  captured_match (some template) (some groups) = record {
    matched = true;
    version = extract_version_from_template e.is_digit (codes "version:" ++ template) groups;
  }

  abbrev pub bare_match : Bool → MatchResult
  bare_match b = record { matched = b; version = none }

  unfoldable pub evaluate_regex : R → Option Text → Text → MatchResult
  unfolding captured_match
  evaluate_regex r none s = bare_match (e.is_match r s)
  evaluate_regex r (some template) s = captured_match (some template) (e.captures r s)

  unfoldable pub evaluate : CompiledPattern R → Text → MatchResult
  unfolding evaluate_regex
  evaluate (any_text template only) s = handle_empty_pattern template
  evaluate (regex r template) s = evaluate_regex r template s

  abbrev pub case_insensitive : Text → Text
  case_insensitive source = codes "(?i)" ++ source

  -- `None` where the regex does not compile.
  unfoldable pub regex_pattern : Text → Option Text → Option (CompiledPattern R)
  regex_pattern source template = elim (e.new (case_insensitive source)) [
    | none ↦ none
    | some r ↦ some (regex r template)
  ]

  unfoldable pub compile_parsed : ParsedPattern → Option (CompiledPattern R)
  unfolding regex_pattern
  compile_parsed p =
      if ltb p.confidence min_pattern_confidence
      then none
      else if is_empty p.pattern_for_match
      then some (any_text p.version_template false)
      else if is_regex_pattern p.pattern_for_match
      then regex_pattern p.pattern_for_match p.version_template
      else regex_pattern (e.escape p.pattern_for_match) none

  unfoldable pub compile_pattern : Text → Option (CompiledPattern R)
  unfolding compile_parsed
  compile_pattern pattern =
      if is_empty pattern then some (any_text none true) else compile_parsed (parse_pattern pattern)

  abbrev keep_some {ℓ} : {A : Type ℓ} → Option A → List A → List A
  keep_some none xs = xs
  keep_some (some x) xs = x ∷ xs

  unfoldable pub compile_list : List Text → List (CompiledPattern R)
  unfolding compile_pattern
  compile_list [] = []
  compile_list (p ∷ ps) = keep_some (compile_pattern p) (compile_list ps)

  abbrev keep_key :
      Text
      → Option (CompiledPattern R)
      → List (Text × CompiledPattern R)
      → List (Text × CompiledPattern R)
  keep_key key none m = m
  keep_key key (some c) m = (key, c) ∷ m

  unfoldable pub compile_map : List (Text × Text) → List (Text × CompiledPattern R)
  unfolding compile_pattern
  compile_map [] = []
  compile_map ((key, p) ∷ ps) = keep_key key (compile_pattern p) (compile_map ps)

  unfoldable pub compile_list_map : List (Text × List Text) → List (Text × List (CompiledPattern R))
  unfolding compile_list
  compile_list_map [] = []
  compile_list_map ((key, ps) ∷ rest) = (key, compile_list ps) ∷ compile_list_map rest

  -- What a pattern that may have been dropped finds.
  unfoldable pub evaluate_compiled : Option (CompiledPattern R) → Text → MatchResult
  unfolding evaluate
  evaluate_compiled none s = no_match
  evaluate_compiled (some c) s = evaluate c s

module _ {R C : Type 0} (e : Regexes R) (m : Cache C R) where
  abbrev pub keep_new : C → Text → Option R → Option R × C
  keep_new c key none = (none, c)
  keep_new c key (some r) = (some r, m.insert c key r)

  abbrev pub or_compile : C → Text → Text → Option R → Option R × C
  or_compile c pattern key (some r) = (some r, c)
  or_compile c pattern key none = keep_new c key (e.new (case_insensitive e pattern))

  unfoldable pub get_or_compile_regex : Text → Text → C → Option R × C
  get_or_compile_regex pattern key c = or_compile c pattern key (m.lookup c key)

  unfoldable pub match_cached_regex : Option Text → Text → Option R × C → MatchResult × C
  unfolding captured_match
  match_cached_regex template s (none, c) = (no_match, c)
  match_cached_regex template s (some r, c) = (captured_match e template (e.captures r s), c)

  unfoldable pub match_cached_literal : Text → Option R × C → MatchResult × C
  match_cached_literal s (none, c) = (no_match, c)
  match_cached_literal s (some r, c) = (bare_match e (e.is_match r s), c)

  unfoldable pub matches_parsed : ParsedPattern → Text → C → MatchResult × C
  unfolding match_cached_regex match_cached_literal get_or_compile_regex
  matches_parsed p s c =
      if ltb p.confidence min_pattern_confidence
      then (no_match, c)
      else if is_empty p.pattern_for_match
      then (handle_empty_pattern p.version_template, c)
      else if is_regex_pattern p.pattern_for_match
      then match_cached_regex p.version_template s
          (get_or_compile_regex p.pattern_for_match p.pattern_for_match c)
      else match_cached_literal s
          (get_or_compile_regex (e.escape p.pattern_for_match) p.pattern_for_match c)

  unfoldable pub matches_pattern : Text → Text → C → MatchResult × C
  unfolding matches_parsed
  matches_pattern pattern s c = matches_parsed (parse_pattern pattern) s c
