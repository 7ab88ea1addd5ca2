-- ===== src/Literals/Steps.antt =====
-- The steps of one technology on one channel: `apply_step` and `apply_steps`. A compiled regex is a
-- parameter, the function from the text to its result.
use domain_status.Common.{
  ℕ, Bool, true, false, ◌&&◌, Option, none, some, List, [], ◌∷◌, Text, codes, contains, trim,
  is_empty, any, within, if◌then◌else◌, is_some,
}
use domain_status.Literals.Hits.{Word, contains_hit}

-- `PatternMatchResult`.
pub record MatchResult : Type 0 where
  pub matched : Bool
  pub version : Option Text

abbrev is_digit : ℕ → Bool
is_digit c = within 48 57 c

-- The literal version of a template, if it is one.
unfoldable pub literal_version : Option Text → Option Text
literal_version none = none
literal_version (some template) =
    let t = trim template in
    if is_empty t then none else if contains (codes "\\") t && any is_digit t then none else some t

unfoldable pub handle_empty_pattern : Option Text → MatchResult
unfolding literal_version
handle_empty_pattern template = record { matched = true; version = literal_version template }

pub data BodyStep : Type 0 where
  any_text : Option Text → BodyStep
  literal : ℕ → BodyStep
  regex : (Text → MatchResult) → Option ℕ → BodyStep

abbrev pub no_match : MatchResult
no_match = record { matched = false; version = none }

-- Whether the prefilter lets a regex run.
abbrev pub prefix_hit : List Word → Option ℕ → Bool
prefix_hit hits none = true
prefix_hit hits (some id) = contains_hit hits id

-- What a step finds; the early returns of `apply_step` find nothing.
unfoldable pub step_result : BodyStep → List Word → Text → MatchResult
unfolding handle_empty_pattern
step_result (any_text template) hits text = handle_empty_pattern template
step_result (literal id) hits text =
    if contains_hit hits id then record { matched = true; version = none } else no_match
step_result (regex evaluate prefix) hits text =
    if prefix_hit hits prefix then evaluate text else no_match

abbrev pub first_version : Option Text → Option Text → Option Text
first_version none v = v
first_version (some u) v = some u

-- The `&mut` variables: whether the technology matched, and its version.
pub record Found : Type 0 where
  pub matched : Bool
  pub version : Option Text

-- The variables behind the step, and whether to stop.
abbrev pub absorb : MatchResult → Found → Found × Bool
absorb r f =
    if r.matched
    then (let version = first_version f.version r.version in
        (record { matched = true; version = version }, is_some version))
    else (f, false)

unfoldable pub apply_step : BodyStep → List Word → Text → Found → Found × Bool
unfolding step_result
apply_step s hits text f = absorb (step_result s hits text) f

unfoldable pub apply_steps : List BodyStep → List Word → Text → Found → Found × Bool
unfolding apply_step
apply_steps [] hits text f = (f, false)
apply_steps (s ∷ steps) hits text f =
    let (g, stops) = apply_step s hits text f in
    let rest = apply_steps steps hits text g in if stops then (g, true) else rest
