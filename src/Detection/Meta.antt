-- ===== src/Detection/Meta.antt =====
-- src/fingerprint/patterns/mod.rs and detection/body.rs: the meta tags of a page, whose keys are of the
-- form `prefix:name`. `to_lowercase` is that of `str`.
use domain_status.Common.{
  Bool, false, Option, none, some, List, [], ◌∷◌, ◌++◌, Text, codes, starts_with, strip_prefix,
  if◌then◌else◌, get,
}
use domain_status.Literals.Steps.{MatchResult, Found, absorb, no_match}
use domain_status.Detection.Compiled.{Regexes, CompiledPattern, evaluate}
use domain_status.Detection.Signals.{nothing_found}

-- One result into the variables, and whether a version is captured.
unfoldable pub absorb_meta_hit : MatchResult → Found → Found × Bool
absorb_meta_hit result f = absorb result f

abbrev result_of : Found → MatchResult
result_of f = record { matched = f.matched; version = f.version }

module _ {R : Type 0} (e : Regexes R) where
  -- The inner loop over the patterns.
  unfoldable pub meta_patterns : List (CompiledPattern R) → Text → Found → Found × Bool
  unfolding absorb_meta_hit
  meta_patterns [] value f = (f, false)
  meta_patterns (p ∷ ps) value f =
      let step = absorb_meta_hit (evaluate e p value) f in
      let more = meta_patterns ps value step.0 in if step.1 then step else more

  unfoldable pub meta_values : List (CompiledPattern R) → List Text → Found → Found
  unfolding meta_patterns
  meta_values ps [] f = f
  meta_values ps (value ∷ values) f =
      let step = meta_patterns ps value f in
      let more = meta_values ps values step.0 in if step.1 then step.0 else more

  unfoldable pub compiled_meta_values : List (CompiledPattern R) → List Text → MatchResult
  unfolding meta_values
  compiled_meta_values ps values = result_of (meta_values ps values nothing_found)

module _ (to_lowercase : Text → Text) where
  -- The values under a key, checked; `else_try` follows where they do not match.
  abbrev pub try_key : (List Text → MatchResult) → Option (List Text) → MatchResult → MatchResult
  try_key check none else_try = else_try
  try_key check (some values) else_try =
      let result = check values in if result.matched then result else else_try

  abbrev stripped : Text → Text → Text
  stripped prefix key = elim (strip_prefix prefix key) [ none ↦ key | some rest ↦ rest ]

  -- A key in lower case, with the attribute types to try.
  unfoldable pub route_lower_key :
      (List Text → MatchResult) → List (Text × List Text) → Text → MatchResult
  route_lower_key check meta_tags key =
      if starts_with (codes "property:") key
      then try_key check (get (codes "property:" ++ stripped (codes "property:") key) meta_tags)
          no_match
      else if starts_with (codes "http-equiv:") key
      then try_key check (get (codes "http-equiv:" ++ stripped (codes "http-equiv:") key) meta_tags)
          no_match
      else try_key check (get (codes "name:" ++ key) meta_tags) (
          try_key check (get (codes "property:" ++ key) meta_tags)
            (try_key check (get (codes "http-equiv:" ++ key) meta_tags) no_match))

  unfoldable pub route_meta_key :
      Text → List (Text × List Text) → (List Text → MatchResult) → MatchResult
  unfolding route_lower_key
  route_meta_key meta_key meta_tags check = route_lower_key check meta_tags (to_lowercase meta_key)

  module _ {R : Type 0} (e : Regexes R) where
    unfoldable pub check_compiled_meta_patterns :
        Text → List (CompiledPattern R) → List (Text × List Text) → MatchResult
    unfolding route_meta_key compiled_meta_values
    check_compiled_meta_patterns meta_key ps meta_tags =
        route_meta_key meta_key meta_tags (compiled_meta_values e ps)

    -- The meta keys of a technology, until a version is found.
    unfoldable pub match_meta :
        List (Text × List (CompiledPattern R)) → List (Text × List Text) → Found → Found
    unfolding check_compiled_meta_patterns
    match_meta [] meta_tags f = f
    match_meta ((key, ps) ∷ rest) meta_tags f =
        let step = absorb (check_compiled_meta_patterns key ps meta_tags) f in
        let more = match_meta rest meta_tags step.0 in if step.1 then step.0 else more
