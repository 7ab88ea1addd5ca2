-- ===== src/Detection/SignalLaws.antt =====
-- Which headers show a technology, whatever the order of its patterns.
use domain_status.Common.{
  ◌≡◌, ◌∙◌, inl, inr, Bool, true, false, not, ◌&&◌, ◌||◌, Option, none, some, List, [], ◌∷◌, arith,
  Text, if◌then◌else◌, any, Bool-cases, get,
}
use domain_status.Literals.Steps.{Found}
use domain_status.Detection.Compiled.{Regexes, CompiledPattern, presence_only, evaluate}
use domain_status.Detection.Signals.{consider, consider_both, match_key, match_keys}

module _ {R : Type 0} (e : Regexes R) where
  -- Whether a pattern matches a value, or needs no more than that there is one.
  abbrev pub hits_value : CompiledPattern R → Text → Bool
  hits_value compiled value = presence_only e compiled || (evaluate e compiled value).matched

  abbrev pub hits_both : Option Text → Option (CompiledPattern R) → Bool
  hits_both none compiled = false
  hits_both (some value) none = false
  hits_both (some value) (some compiled) = hits_value compiled value

  consider-matched :
      (compiled : CompiledPattern R) (value : Text) (f : Found)
      → ((consider e compiled value f).0.matched ≡ (f.matched || hits_value compiled value))
        × ((consider e compiled value f).1 ≡ true → hits_value compiled value ≡ true)
  unfolding consider
  consider-matched compiled value f = (ground arith, λ h. ground arith)

  consider_both-matched :
      (value : Option Text) (compiled : Option (CompiledPattern R)) (f : Found)
      → ((consider_both e value compiled f).0.matched ≡ (f.matched || hits_both value compiled))
        × ((consider_both e value compiled f).1 ≡ true → hits_both value compiled ≡ true)
  consider_both-matched none compiled f = (ground arith, λ h. cc)
  consider_both-matched (some value) none f = (ground arith, λ h. cc)
  consider_both-matched (some value) (some compiled) f = consider-matched compiled value f

  module _ (skip_key : Text → Bool) (values : List (Text × Text)) where
    -- Whether the key is no skipped one, the values have it, and its pattern hits its value.
    abbrev pub hits_key : List (Text × CompiledPattern R) → Text → Bool
    hits_key prepared key = not (skip_key key) && hits_both (get key values) (get key prepared)

    match_key-matched :
        (prepared : List (Text × CompiledPattern R)) (key : Text) (f : Found)
        → ((match_key e skip_key values prepared key f).0.matched
            ≡ (f.matched || hits_key prepared key))
          × ((match_key e skip_key values prepared key f).1 ≡ true → hits_key prepared key ≡ true)
    unfolding match_key
    match_key-matched prepared key f =
        let both = consider_both-matched (get key values) (get key prepared) f in
        elim (Bool-cases (skip_key key)) [
          | inl skipped ↦ rw (skipped, if◌then◌else◌) (ground arith, λ h. cc)
          | inr read ↦ rw (read, if◌then◌else◌) both
        ]

    -- A technology is found by its headers exactly if one of its patterns hits: its key is no skipped
    -- one, the response has that header, and the pattern asks for presence only or matches the value.
    -- The order of the patterns decides on the version alone.
    pub match_keys-matched :
        (prepared : List (Text × CompiledPattern R)) (patterns : List (Text × Text)) (f : Found)
        → (match_keys e skip_key values prepared patterns f).matched
          ≡ (f.matched || any (λ p. hits_key prepared p.0) patterns)
    unfolding match_keys
    match_keys-matched prepared [] f = ground arith
    match_keys-matched prepared ((key, pattern) ∷ patterns) f =
        let step = match_key e skip_key values prepared key f in
        let here = match_key-matched prepared key f in
        let rest = match_keys-matched prepared patterns step.0 in
        elim (Bool-cases step.1) [
          | inl stops ↦
              let hit = here.1 stops in rw (stops, if◌then◌else◌) (here.0 ∙ rw hit (ground arith))
          | inr goes ↦ rw (goes, if◌then◌else◌) (rest ∙ rw (here.0) (ground arith))
        ]
