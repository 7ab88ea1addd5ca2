-- ===== src/Detection/Cookies.antt =====
-- src/fingerprint/detection/cookies.rs: cookie names, which may have wildcards, against the cookies
-- of a response. The regexes of the wildcards go through the cache.
use domain_status.Common.{
  Bool, false, ◌&&◌, Option, none, some, List, [], ◌∷◌, ◌++◌, map, Text, codes, split_char, ◌==◌,
  if◌then◌else◌, any, is_some, get,
}
use domain_status.Literals.Steps.{Found}
use domain_status.Detection.Ruleset.{Technology, FingerprintRuleset, DetectionSource}
use domain_status.Detection.Finalize.{SignalMatch}
use domain_status.Detection.Compiled.{
  Regexes, Cache, CompiledPattern, compile_map, get_or_compile_regex,
}
use domain_status.Detection.Signals.{consider, consider_both, nothing_found, report_match}

-- `join`.
abbrev pub join : Text → List Text → Text
join separator [] = []
join separator (p ∷ []) = p
join separator (p ∷ (q ∷ ps)) = p ++ (separator ++ join separator (q ∷ ps))

module _ {R C : Type 0} (e : Regexes R) (m : Cache C R) where
  unfoldable pub wildcard_source : Text → Text
  wildcard_source name =
      codes "^" ++ (join (codes ".*") (map e.escape (split_char b'*' name)) ++ codes "$")

  unfoldable pub wildcard_cookie_regex : Text → C → Option R × C
  unfolding wildcard_source
  wildcard_cookie_regex name c =
      get_or_compile_regex e m (wildcard_source name) (codes "cookie:" ++ name) c

  abbrev consider_some : Text → Option (CompiledPattern R) → Found → Found × Bool
  consider_some value none f = (f, false)
  consider_some value (some compiled) f = consider e compiled value f

  -- The cookies whose name the regex matches, until one says to stop.
  unfoldable pub match_wildcard :
      R → Option (CompiledPattern R) → List (Text × Text) → Found → Found
  match_wildcard r compiled [] f = f
  match_wildcard r compiled ((name, value) ∷ cookies) f =
      let step = (if e.is_match r name then consider_some value compiled f else (f, false)) in
      let more = match_wildcard r compiled cookies step.0 in if step.1 then step.0 else more

  abbrev match_wildcard_or :
      Option R → Option (CompiledPattern R) → List (Text × Text) → Found → Found
  match_wildcard_or none compiled cookies f = f
  match_wildcard_or (some r) compiled cookies f = match_wildcard r compiled cookies f

  -- One cookie name of a technology: what is found, whether to stop, and the cache.
  unfoldable pub match_cookie_name :
      List (Text × CompiledPattern R) → List (Text × Text) → Text → Found → C → Found × Bool × C
  unfolding wildcard_cookie_regex match_wildcard
  match_cookie_name prepared cookies name f c =
      let compiled = get name prepared in
      let regex = wildcard_cookie_regex name c in
      let exact = consider_both e (get name cookies) compiled f in
      if any (λ x. x == b'*') name
      then (match_wildcard_or regex.0 compiled cookies f, false, regex.1)
      else (exact.0, exact.1, c)

  unfoldable pub match_cookie_names :
      List (Text × CompiledPattern R)
      → List (Text × Text)
      → List (Text × Text)
      → Found
      → C
      → Found × C
  unfolding match_cookie_name
  match_cookie_names prepared cookies [] f c = (f, c)
  match_cookie_names prepared cookies ((name, pattern) ∷ names) f c =
      let step = match_cookie_name prepared cookies name f c in
      let g = step.0 in
      let more = match_cookie_names prepared cookies names g step.2 in
      if step.1 then (g, step.2) else if g.matched && is_some g.version then (g, step.2) else more

  unfoldable pub match_cookie_technologies :
      List (Text × Technology) → List (Text × Text) → C → List SignalMatch × C
  unfolding match_cookie_names
  match_cookie_technologies [] cookies c = ([], c)
  match_cookie_technologies ((name, tech) ∷ rest) cookies c =
      let here =
        match_cookie_names (compile_map e tech.cookies) cookies tech.cookies nothing_found c in
      let more = match_cookie_technologies rest cookies here.1 in
      (report_match name DetectionSource.cookie here.0 more.0, more.1)

  unfoldable pub check_cookies_with_ruleset :
      FingerprintRuleset → List (Text × Text) → C → List SignalMatch × C
  unfolding match_cookie_technologies
  check_cookies_with_ruleset rules cookies c =
      match_cookie_technologies rules.technologies cookies c
