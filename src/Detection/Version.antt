-- ===== src/Detection/Version.antt =====
-- src/fingerprint/patterns/version.rs: the version template of a pattern over the groups that a
-- regex captured. The groups are those behind the whole match, by their number from 1; a group
-- that took no part is `none`. `is_digit` is the class `\d` of the regex crate.
use domain_status.Common.{
  ℕ, zero, suc, ◌+◌, ◌-◌, Bool, true, false, not, ◌&&◌, ◌||◌, Option, none, some, List, [], ◌∷◌,
  Text, codes, contains, trim, is_empty, split_char, split_once, replace, strip_prefix, ltb, ◌==◌,
  if◌then◌else◌, length, get_elem?,
}
use domain_status.Sanitize.{decimal}

abbrev pub Captures : Type 0
Captures = List (Option Text)

abbrev pub backslash : ℕ
backslash = b'\\'

abbrev pub placeholder_single : ℕ → Text
placeholder_single i = backslash ∷ decimal i

abbrev pub placeholder_double : ℕ → Text
placeholder_double i = backslash ∷ placeholder_single i

-- Whether the template names the group `i`: both searches of the code.
unfoldable pub names_group : Text → ℕ → Bool
names_group expr i = contains (placeholder_double i) expr || contains (placeholder_single i) expr

-- The numbers from `i` up, `n` of them, that the template names.
unfoldable pub named_groups : Text → ℕ → ℕ → List ℕ
unfolding names_group
named_groups expr i zero = []
named_groups expr i (suc n) =
    let rest = named_groups expr (i + 1) n in if names_group expr i then i ∷ rest else rest

-- The 99 groups that are looked for.
unfoldable pub placeholders_in_template : Text → List ℕ
unfolding named_groups
placeholders_in_template expr = named_groups expr 1 99

abbrev pub replace_group : ℕ → Option Text → Text → Text
replace_group i none s = s
replace_group i (some value) s =
    replace (replace s (placeholder_double i) value) (placeholder_single i) value

abbrev nth_group : Captures → ℕ → Option Text
nth_group captures i = elim (get_elem? captures (i - 1)) [ none ↦ none | some c ↦ c ]

-- The loop over the groups from the last down to the first; `wanted` are those to replace.
unfoldable pub replace_groups : (ℕ → Bool) → Captures → ℕ → Text → Text
replace_groups wanted captures zero s = s
replace_groups wanted captures (suc i) s =
    replace_groups wanted captures i
      (if wanted (suc i) then replace_group (suc i) (nth_group captures (suc i)) s else s)

unfoldable pub replace_placeholders : Text → Captures → Text
unfolding replace_groups
replace_placeholders template captures =
    replace_groups (λ i. true) captures (length captures) template

-- `splitn(2, '?')` and `splitn(2, ':')` of what follows.
unfoldable pub parse_ternary_expression : Text → Option (Text × Text)
parse_ternary_expression expression = elim (split_once b'?' expression) [
  | none ↦ none
  | some parts ↦ split_once b':' parts.1
]

unfoldable pub evaluate_version_ternary : Text → Captures → Text
unfolding replace_placeholders parse_ternary_expression
evaluate_version_ternary expression captures = elim (parse_ternary_expression expression) [
  | none ↦ expression
  | some parts ↦
      if is_empty parts.0
      then (if is_empty parts.1 then [] else replace_placeholders parts.1 captures)
      else if is_empty captures
      then replace_placeholders parts.1 captures
      else replace_placeholders parts.0 captures
]

abbrev has_number : ℕ → List ℕ → Bool
has_number i [] = false
has_number i (j ∷ js) = i == j || has_number i js

module _ (is_digit : ℕ → Bool) where
  abbrev pub starts_digit : Text → Bool
  starts_digit [] = false
  starts_digit (c ∷ s) = is_digit c

  -- `replace_all` of a backslash and digits by nothing; the flag says that digits are being dropped.
  abbrev pub drop_placeholders : Bool → Text → Text
  drop_placeholders dropping [] = []
  drop_placeholders dropping (c ∷ s) =
      let more = drop_placeholders true s in
      let rest = drop_placeholders false s in
      if dropping && is_digit c
      then more
      else if c == backslash && starts_digit s
      then more
      else c ∷ rest

  -- The groups put into the template, which may be a ternary expression.
  unfoldable pub expand_template : Text → Captures → Text
  unfolding evaluate_version_ternary replace_groups placeholders_in_template
  expand_template expr captures =
      let named = placeholders_in_template expr in
      let filled = replace_groups (λ i. has_number i named) captures (length captures) expr in
      if contains (codes "?") expr
      then evaluate_version_ternary expr captures
      else drop_placeholders false filled

  abbrev pub first_part : List Text → Text
  first_part [] = []
  first_part (p ∷ ps) = trim p

  -- A semicolon in a version whose template names at most one group ends it.
  unfoldable pub cut_semicolon : List ℕ → Text → Text
  cut_semicolon named trimmed =
      let first = first_part (split_char b';' trimmed) in
      if contains (codes ";") trimmed && not (ltb 1 (length named)) && not (is_empty first)
      then first
      else trimmed

  unfoldable pub version_of_expression : Text → Captures → Option Text
  unfolding expand_template cut_semicolon placeholders_in_template
  version_of_expression expr captures =
      let result = drop_placeholders false (expand_template expr captures) in
      if is_empty expr
      then none
      else if is_empty result
      then none
      else some (cut_semicolon (placeholders_in_template expr) (trim result))

  unfoldable pub extract_version_from_template : Text → Captures → Option Text
  unfolding version_of_expression
  extract_version_from_template template captures =
      elim (strip_prefix (codes "version:") template) [
        | none ↦ none
        | some expr ↦ version_of_expression (trim expr) captures
      ]
