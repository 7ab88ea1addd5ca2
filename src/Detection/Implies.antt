-- ===== src/Detection/Implies.antt =====
-- src/fingerprint/detection/mod.rs: the observed technologies, merged, and those they imply. The map
-- of the detected technologies is an association list, a new one at its end.
use domain_status.Common.{
  ℕ, zero, suc, Bool, true, false, not, ◌&&◌, ◌||◌, Option, none, some, List, [], ◌∷◌, ◌++◌, Text,
  text_eq, trim, is_empty, utf8_len, within, leb, if◌then◌else◌, get, is_some,
}
use domain_status.Detection.Patterns.{parse_technology_reference}
use domain_status.Detection.Ruleset.{
  Technology, FingerprintRuleset, technology_of, is_technology, DetectionSource,
}

pub record TechInfo : Type 0 where
  pub version : Option Text
  pub is_implied : Bool
  pub source : DetectionSource

abbrev pub Detected : Type 0
Detected = List (Text × TechInfo)

-- `char::is_ascii_hexdigit`.
abbrev is_ascii_hexdigit : ℕ → Bool
is_ascii_hexdigit c = within b'0' b'9' c || within b'a' b'f' c || within b'A' b'F' c

abbrev all_hexdigits : Text → Bool
all_hexdigits [] = true
all_hexdigits (c ∷ s) = is_ascii_hexdigit c && all_hexdigits s

-- A content hash: seven hexadecimal digits or more.
abbrev pub is_hash : Text → Bool
is_hash s = leb 7 (utf8_len s) && all_hexdigits s

unfoldable pub sanitize_technology_version : Option Text → Option Text
sanitize_technology_version none = none
sanitize_technology_version (some version) =
    if is_empty (trim version) then none else if is_hash (trim version) then none else some version

abbrev pub or_version : Option Text → Option Text → Option Text
or_version none v = v
or_version (some u) v = some u

-- `and_modify` of an entry, or `or_insert`.
abbrev pub upsert : (TechInfo → TechInfo) → TechInfo → Text → Detected → Detected
upsert modify new name [] = (name, new) ∷ []
upsert modify new name ((k, v) ∷ rest) =
    if text_eq name k then (k, modify v) ∷ rest else (k, v) ∷ upsert modify new name rest

abbrev pub observe_again : Option Text → DetectionSource → TechInfo → TechInfo
observe_again version source info = record {
  version = or_version info.version version;
  is_implied = false;
  source = if info.is_implied then source else info.source;
}

unfoldable pub merge_observed : Detected → Text → Option Text → DetectionSource → Detected
unfolding sanitize_technology_version
merge_observed detected name version source =
    let clean = sanitize_technology_version version in
    upsert (observe_again clean source)
      (record { version = clean; is_implied = false; source = source }) name detected

-- The references of one technology, parsed.
unfoldable pub parse_references : List Text → List (Text × Option Text)
parse_references [] = []
parse_references (r ∷ refs) = parse_technology_reference r ∷ parse_references refs

abbrev pub implied_by : Option Technology → List (Text × Option Text)
implied_by none = []
implied_by (some tech) = parse_references tech.implies

-- `implied_to_add`.
unfoldable pub implied_to_add : FingerprintRuleset → Detected → List (Text × Option Text)
unfolding parse_references
implied_to_add rules [] = []
implied_to_add rules ((name, info) ∷ rest) =
    implied_by (technology_of rules name) ++ implied_to_add rules rest

abbrev pub fill_version : Option Text → TechInfo → TechInfo
fill_version version info = record info { version = or_version info.version version }

abbrev pub implied_info : Option Text → TechInfo
implied_info version = record {
  version = version;
  is_implied = true;
  source = DetectionSource.implied;
}

-- One implied technology, and whether it was new.
unfoldable pub add_implied :
    FingerprintRuleset → Text → Option Text → Detected × Bool → Detected × Bool
unfolding sanitize_technology_version
add_implied rules name version (detected, added) =
    let clean = sanitize_technology_version version in
    if is_technology rules name
    then (
      upsert (fill_version clean) (implied_info clean) name detected,
      added || not (is_some (get name detected)),
    )
    else (detected, added)

unfoldable pub add_all_implied :
    FingerprintRuleset → List (Text × Option Text) → Detected × Bool → Detected × Bool
unfolding add_implied
add_all_implied rules [] s = s
add_all_implied rules ((name, version) ∷ more) s =
    add_all_implied rules more (add_implied rules name version s)

unfoldable pub implies_round : FingerprintRuleset → Detected → Detected × Bool
unfolding implied_to_add add_all_implied
implies_round rules detected =
    add_all_implied rules (implied_to_add rules detected) (detected, false)

-- The loop, with the rounds left.
unfoldable pub implies_rounds : ℕ → FingerprintRuleset → Detected → Detected
unfolding implies_round
implies_rounds zero rules detected = detected
implies_rounds (suc n) rules detected =
    let round = implies_round rules detected in
    let next = implies_rounds n rules round.0 in if round.1 then next else round.0

-- `MAX_IMPLIES_DEPTH`.
abbrev pub max_implies_depth : ℕ
max_implies_depth = 10

unfoldable pub expand_implies : Detected → FingerprintRuleset → Detected
unfolding implies_rounds
expand_implies detected rules = implies_rounds max_implies_depth rules detected
