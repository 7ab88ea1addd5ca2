-- ===== src/Detection/Index.antt =====
-- src/fingerprint/patterns/literals.rs: the steps of the body patterns, with the needles numbered, and
-- the index built of them. The matches of the automaton are a parameter, the function `find` from the
-- needles and a text to the numbers that it reports.
use domain_status.Common.{
  ℕ, Bool, Option, none, some, List, [], ◌∷◌, Text, to_ascii_lowercase, is_empty, ltb,
  if◌then◌else◌, length, get,
}
use domain_status.Literals.Hits.{Word, Interner, intern, scan_channel}
use domain_status.Literals.Steps.{BodyStep, Found, apply_steps}
use domain_status.Detection.Patterns.{
  ParsedPattern, min_pattern_confidence, parse_pattern, is_regex_pattern,
}
use domain_status.Detection.Compiled.{Regexes, CompiledPattern, compile_pattern, evaluate}
use domain_status.Detection.Ruleset.{Technology}
use domain_status.Detection.Needles.{ascii_literal_needle, mandatory_prefix}

module _ {R : Type 0} (e : Regexes R) where
  abbrev regex_or_any : Option ℕ → CompiledPattern R → BodyStep
  regex_or_any prefix (CompiledPattern.any_text template only) = BodyStep.any_text template
  regex_or_any prefix (CompiledPattern.regex r template) =
      BodyStep.regex (evaluate e (CompiledPattern.regex r template)) prefix

  unfoldable pub regex_step : Text → Option ℕ → Option BodyStep
  regex_step raw prefix = elim (compile_pattern e raw) [
    | none ↦ none
    | some compiled ↦ some (regex_or_any prefix compiled)
  ]

  abbrev literal_step : Interner × Option ℕ → Option BodyStep × Interner
  literal_step (s, none) = (none, s)
  literal_step (s, some id) = (some (BodyStep.literal id), s)

  unfoldable pub prefixed_step : Text → Interner × Option ℕ → Option BodyStep × Interner
  unfolding regex_step
  prefixed_step raw (s, prefix) = (regex_step raw prefix, s)

  abbrev intern_prefix : Option Text → Interner → Interner × Option ℕ
  intern_prefix none s = (s, none)
  intern_prefix (some prefix) s = intern s (to_ascii_lowercase prefix)

  -- A pattern with its needle, if it is a literal.
  unfoldable pub needle_step :
      Text → ParsedPattern → Option Text → Interner → Option BodyStep × Interner
  unfolding prefixed_step mandatory_prefix
  needle_step raw p none s =
      prefixed_step raw (intern_prefix (mandatory_prefix p.pattern_for_match) s)
  needle_step raw p (some needle) s = elim p.version_template [
    | none ↦ literal_step (intern s needle)
    | some version ↦
        if is_regex_pattern p.pattern_for_match
        then prefixed_step raw (intern_prefix (some needle) s)
        else literal_step (intern s needle)
  ]

  unfoldable pub compile_step : Text → Interner → Option BodyStep × Interner
  unfolding needle_step ascii_literal_needle
  compile_step raw s =
      let p = parse_pattern raw in
      if is_empty raw
      then (some (BodyStep.any_text none), s)
      else if ltb p.confidence min_pattern_confidence
      then (none, s)
      else if is_empty p.pattern_for_match
      then (some (BodyStep.any_text p.version_template), s)
      else needle_step raw p (ascii_literal_needle p.pattern_for_match) s

  abbrev keep_step : Option BodyStep → List BodyStep → List BodyStep
  keep_step none steps = steps
  keep_step (some b) steps = b ∷ steps

  unfoldable pub compile_steps : List Text → Interner → List BodyStep × Interner
  unfolding compile_step
  compile_steps [] s = ([], s)
  compile_steps (raw ∷ patterns) s =
      let first = compile_step raw s in
      let rest = compile_steps patterns first.1 in (keep_step first.0 rest.0, rest.1)

pub record TechBodyPlan : Type 0 where
  pub html : List BodyStep
  pub script : List BodyStep
  pub scripts : List BodyStep
  pub url : List BodyStep

-- The four channels while they are built.
pub record Needles : Type 0 where
  pub html : Interner
  pub script : Interner
  pub scripts : Interner
  pub url : Interner

-- The needles of the channels, and the plans.
pub record LiteralIndex : Type 0 where
  pub needles : Needles
  pub plans : List (Text × TechBodyPlan)

abbrev no_needles : Interner
no_needles = record { to_id = []; needles = [] }

module _ {R : Type 0} (e : Regexes R) where
  unfoldable pub build_plans : List (Text × Technology) → Needles → LiteralIndex
  unfolding compile_steps
  build_plans [] n = record { needles = n; plans = [] }
  build_plans ((name, tech) ∷ rest) n =
      let html = compile_steps e tech.html n.html in
      let script = compile_steps e tech.script n.script in
      let scripts = compile_steps e tech.scripts n.scripts in
      let url = compile_steps e tech.url n.url in
      let plan : TechBodyPlan = record {
        html = html.0;
        script = script.0;
        scripts = scripts.0;
        url = url.0;
      } in
      let more =
        build_plans rest
          (record { html = html.1; script = script.1; scripts = scripts.1; url = url.1 }) in
      record { needles = more.needles; plans = (name, plan) ∷ more.plans }

  unfoldable pub build_index : List (Text × Technology) → LiteralIndex
  unfolding build_plans
  build_index technologies =
      build_plans technologies
        (record { html = no_needles; script = no_needles; scripts = no_needles; url = no_needles })

-- `scan_html`, `scan_script`, `scan_scripts` and `scan_url`, each with the needles of its channel.
unfoldable pub scan_text : (List Text → Text → List ℕ) → Interner → Text → List Word
scan_text find channel text = scan_channel (length channel.needles) (find channel.needles text)

abbrev steps_of : (TechBodyPlan → List BodyStep) → Option TechBodyPlan → List BodyStep
steps_of kind none = []
steps_of kind (some plan) = kind plan

-- `match_html` and its like, each with the steps of its channel.
unfoldable pub match_channel :
    LiteralIndex → (TechBodyPlan → List BodyStep) → Text → List Word → Text → Found → Found × Bool
match_channel index kind tech hits text f =
    apply_steps (steps_of kind (get tech index.plans)) hits text f
