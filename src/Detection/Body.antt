-- ===== src/Detection/Body.antt =====
-- src/fingerprint/detection/body.rs: the five body signals of each technology, one after the other
-- while no version is known. `find` is the automaton's and `to_lowercase` that of `str`.
use domain_status.Common.{
  ℕ, Bool, true, not, ◌&&◌, Option, none, some, List, [], ◌∷◌, Text, is_empty, if◌then◌else◌,
  is_some,
}
use domain_status.Literals.Steps.{Found}
use domain_status.Detection.Ruleset.{Technology, FingerprintRuleset, DetectionSource}
use domain_status.Detection.Finalize.{SignalMatch}
use domain_status.Detection.Compiled.{Regexes, compile_list_map}
use domain_status.Detection.Signals.{nothing_found, report_match, first_source, SourcedMatch}
use domain_status.Detection.Meta.{match_meta}
use domain_status.Detection.Index.{LiteralIndex, build_index, scan_text, match_channel}

-- What a signal found, with its source if it is the first to match.
abbrev pub signal_found : DetectionSource → SourcedMatch → Found → SourcedMatch
signal_found here d g = record {
  found = g;
  source = first_source (g.matched && not d.found.matched) here d.source;
}

-- A signal that is asked only while no version is known.
abbrev pub unless_version : SourcedMatch → SourcedMatch → SourcedMatch
unless_version d next = if is_some d.found.version then d else next

-- The page.
pub record Page : Type 0 where
  pub html_body : Text
  pub script_sources : List Text
  pub meta_tags : List (Text × List Text)
  pub url : Text
  pub inline_script_text : Text

module _ (find : List Text → Text → List ℕ) (index : LiteralIndex) (tech : Text) where
  unfoldable pub body_html : Text → SourcedMatch → SourcedMatch
  body_html text d =
      signal_found DetectionSource.html d
        (match_channel index (λ p. p.html) tech (scan_text find index.needles.html text) text
          d.found).0

  unfoldable pub body_scripts : Text → SourcedMatch → SourcedMatch
  body_scripts text d =
      if is_empty text
      then d
      else signal_found DetectionSource.scripts d
          (match_channel index (λ p. p.scripts) tech (scan_text find index.needles.scripts text)
            text d.found).0

  unfoldable pub body_url : Text → SourcedMatch → SourcedMatch
  body_url text d =
      signal_found DetectionSource.url d
        (match_channel index (λ p. p.url) tech (scan_text find index.needles.url text) text
          d.found).0

  -- The loop over the script sources.
  unfoldable pub body_script_sources : List Text → SourcedMatch → SourcedMatch
  body_script_sources [] d = d
  body_script_sources (src ∷ sources) d =
      let step =
        match_channel index (λ p. p.script) tech (scan_text find index.needles.script src) src
          d.found in
      let next = signal_found DetectionSource.script_src d step.0 in
      let more = body_script_sources sources next in
      if step.1
      then record { found = step.0; source = first_source true DetectionSource.script_src d.source }
      else more

module _ (find : List Text → Text → List ℕ) (index : LiteralIndex) where
  unfoldable pub match_scripts_only : List (Text × Technology) → Text → List SignalMatch
  match_scripts_only [] text = []
  match_scripts_only ((name, tech) ∷ rest) text =
      let more = match_scripts_only rest text in
      let g =
        match_channel index (λ p. p.scripts) name (scan_text find index.needles.scripts text) text
          nothing_found in
      if is_empty tech.scripts then more else report_match name DetectionSource.scripts g.0 more

abbrev pub has_body_signal : Technology → Bool
has_body_signal tech = not (
    is_empty tech.html
    && is_empty tech.script
    && is_empty tech.scripts
    && is_empty tech.meta
    && is_empty tech.url)

abbrev pub source_or_html : Option DetectionSource → DetectionSource
source_or_html none = DetectionSource.html
source_or_html (some source) = source

module _ {R : Type 0} (e : Regexes R) (to_lowercase : Text → Text)
    (find : List Text → Text → List ℕ) (index : LiteralIndex) where
  unfoldable pub body_meta : Technology → List (Text × List Text) → SourcedMatch → SourcedMatch
  body_meta tech meta_tags d =
      signal_found DetectionSource.html d
        (match_meta to_lowercase e (compile_list_map e tech.meta) meta_tags d.found)

  unfoldable pub match_body : Text → Technology → Page → SourcedMatch
  unfolding body_html body_script_sources body_scripts body_meta body_url
  match_body name tech page =
      let html =
        body_html find index name page.html_body
          (record { found = nothing_found; source = none }) in
      let sources =
        unless_version html (body_script_sources find index name page.script_sources html) in
      let inline =
        unless_version sources (body_scripts find index name page.inline_script_text sources) in
      let meta = unless_version inline (body_meta tech page.meta_tags inline) in
      unless_version meta (body_url find index name page.url meta)

  unfoldable pub match_bodies : List (Text × Technology) → Page → List SignalMatch
  unfolding match_body
  match_bodies [] page = []
  match_bodies ((name, tech) ∷ rest) page =
      let more = match_bodies rest page in
      let d = match_body name tech page in
      if has_body_signal tech
      then report_match name (source_or_html d.source) d.found more
      else more

module _ {R : Type 0} (e : Regexes R) (find : List Text → Text → List ℕ) where
  unfoldable pub check_body_with_ruleset :
      (Text → Text) → FingerprintRuleset → Page → List SignalMatch
  unfolding match_bodies
  check_body_with_ruleset to_lowercase rules page =
      match_bodies e to_lowercase find (build_index e rules.technologies) rules.technologies page

  unfoldable pub check_scripts_with_ruleset : FingerprintRuleset → Text → List SignalMatch
  unfolding match_scripts_only
  check_scripts_with_ruleset rules text =
      if is_empty text
      then []
      else match_scripts_only find (build_index e rules.technologies) rules.technologies text
