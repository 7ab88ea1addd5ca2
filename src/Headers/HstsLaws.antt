-- ===== src/Headers/HstsLaws.antt =====
-- The flags of a Strict-Transport-Security header, by the names that its segments state.
use domain_status.Common.{
  ◌≡◌, Bool, ◌||◌, Option, none, some, List, [], ◌∷◌, ◌++◌, Text, codes, trim, is_empty, split_char,
  eq_ignore_ascii_case, if◌then◌else◌, any,
}
use domain_status.Headers.Hsts.{
  HstsDirectives, split_directive_name_value, remainder_after_max_age_number, starts_digit,
  is_max_age,
}

abbrev pub is_subdomains : Text → Bool
is_subdomains name = eq_ignore_ascii_case name (codes "includeSubDomains")

abbrev pub is_preload : Text → Bool
is_preload name = eq_ignore_ascii_case name (codes "preload")

-- The parts behind an age, without those that are blank or go on with digits.
abbrev pub part_names : List Text → List Text
part_names [] = []
part_names (part ∷ parts) =
    let rest = part_names parts in
    if is_empty (trim part) || starts_digit (trim part) then rest else trim part ∷ rest

abbrev pub rest_names : Option Text → List Text
rest_names none = []
rest_names (some leftover) = part_names (split_char b',' leftover)

abbrev pub age_names : Option Text → List Text
age_names none = []
age_names (some raw) = rest_names (remainder_after_max_age_number raw)

-- The names that a segment states: its own, or, behind an age, those that follow commas.
abbrev pub directive_names : Text × Option Text → List Text
directive_names (name, value) = if is_max_age name then age_names value else name ∷ []

abbrev pub segment_names : Text → List Text
segment_names segment =
    if is_empty (trim segment)
    then []
    else directive_names (split_directive_name_value (trim segment))

abbrev pub stated_names : List Text → List Text
stated_names [] = []
stated_names (segment ∷ segments) = segment_names segment ++ stated_names segments

-- `out` has the flags of `r`, and those that are named.
abbrev pub SetsFlags : HstsDirectives → List Text → HstsDirectives → Type 0
SetsFlags r names out =
    (out.include_subdomains ≡ (r.include_subdomains || any is_subdomains names))
    × (out.preload ≡ (r.preload || any is_preload names))
