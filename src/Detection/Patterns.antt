-- ===== src/Detection/Patterns.antt =====
-- src/fingerprint/patterns/mod.rs: the parts of a pattern, behind `\;` its version and confidence.
use domain_status.Common.{
  ℕ, Bool, true, false, ◌&&◌, ◌||◌, Option, none, some, List, [], ◌∷◌, Text, codes, text_eq, trim,
  split_pair, split_once, starts_with, parse_unsigned, ◌==◌, if◌then◌else◌, any,
}
use domain_status.Detection.Version.{backslash}

-- `MIN_PATTERN_CONFIDENCE`.
abbrev pub min_pattern_confidence : ℕ
min_pattern_confidence = 50

pub record ParsedPattern : Type 0 where
  pub pattern_for_match : Text
  pub version_template : Option Text
  pub confidence : ℕ

abbrev first_template : Text → Option Text → Option Text
first_template value none = some value
first_template value (some template) = some template

abbrev confidence_or : ℕ → Option ℕ → ℕ
confidence_or n none = n
confidence_or n (some m) = m

abbrev is_none : Option Text → Bool
is_none none = true
is_none (some template) = false

-- One part behind the pattern, split at its colon.
unfoldable pub read_metadata : Option (Text × Text) → ParsedPattern → ParsedPattern
read_metadata none p = p
read_metadata (some (key, value)) p =
    if text_eq key (codes "version") && is_none p.version_template
    then record p { version_template = some value }
    else if text_eq key (codes "confidence")
    then record p {
      confidence = confidence_or p.confidence (parse_unsigned 4294967296 (trim value));
    }
    else p

unfoldable pub read_parts : List Text → ParsedPattern → ParsedPattern
unfolding read_metadata
read_parts [] p = p
read_parts (part ∷ parts) p = read_parts parts (read_metadata (split_once b':' part) p)

abbrev pub bare_pattern : Text → ParsedPattern
bare_pattern s = record { pattern_for_match = s; version_template = none; confidence = 100 }

unfoldable pub of_parts : List Text → ParsedPattern
unfolding read_parts
of_parts [] = bare_pattern []
of_parts (first ∷ parts) = read_parts parts (bare_pattern (trim first))

unfoldable pub parse_pattern : Text → ParsedPattern
unfolding of_parts
parse_pattern pattern = of_parts (split_pair backslash b';' pattern)

unfoldable pub parse_technology_reference : Text → Text × Option Text
unfolding parse_pattern
parse_technology_reference raw =
    let parsed = parse_pattern raw in (parsed.pattern_for_match, parsed.version_template)

abbrev contains_char : ℕ → Text → Bool
contains_char c = any (λ x. x == c)

unfoldable pub is_regex_pattern : Text → Bool
is_regex_pattern pattern =
    starts_with (codes "^") pattern
    || contains_char b'$' pattern
    || contains_char backslash pattern
    || contains_char b'[' pattern
    || contains_char b'(' pattern
    || contains_char b'*' pattern
    || contains_char b'+' pattern
    || contains_char b'?' pattern
