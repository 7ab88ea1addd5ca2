-- ===== src/Headers/Hsts.antt =====
-- src/security/hsts.rs: the directives of a Strict-Transport-Security header. A text in quotes of one
-- byte is cut by characters, which is the same.
use domain_status.Common.{
  ℕ, zero, suc, Bool, true, false, ◌&&◌, ◌||◌, Option, none, some, List, [], ◌∷◌, Text, codes,
  strip_prefix, to_ascii_lowercase, trim, trim_matches, is_empty, length, split_char, split_once,
  parse_unsigned, is_ascii_digit, eq_ignore_ascii_case, ◌==◌, if◌then◌else◌,
}
use mathlib.Core.List.{reverse}

pub record HstsDirectives : Type 0 where
  pub max_age : Option ℕ
  pub include_subdomains : Bool
  pub preload : Bool

abbrev pub no_directives : HstsDirectives
no_directives = record { max_age = none; include_subdomains = false; preload = false }

abbrev tail : Text → Text
tail [] = []
tail (c ∷ s) = s

abbrev head_is : ℕ → Text → Bool
head_is c [] = false
head_is c (d ∷ s) = d == c

abbrev quoted_by : ℕ → Text → Bool
quoted_by q s = head_is q s && head_is q (reverse s)

unfoldable pub strip_matching_quotes : Text → Option Text
strip_matching_quotes [] = none
strip_matching_quotes (c ∷ []) = none
strip_matching_quotes (c ∷ d ∷ s) =
    if quoted_by b'"' (c ∷ d ∷ s) || quoted_by b'\'' (c ∷ d ∷ s)
    then some (reverse (tail (reverse (d ∷ s))))
    else none

abbrev unquoted_or : Text → Option Text → Text
unquoted_or s none = s
unquoted_or s (some t) = trim t

abbrev drop : ℕ → Text → Text
drop zero s = s
drop (suc n) [] = []
drop (suc n) (c ∷ s) = drop n s

abbrev prefix : Text
prefix = codes "strict-transport-security:"

-- The header's name in front, if it is there.
abbrev without_name : Text → Option Text → Text
without_name s none = s
without_name s (some rest) = trim (drop (length prefix) s)

unfoldable pub normalize_hsts_value : Text → Text
unfolding strip_matching_quotes
normalize_hsts_value value =
    let s = unquoted_or (trim value) (strip_matching_quotes (trim value)) in
    without_name s (strip_prefix prefix (to_ascii_lowercase s))

unfoldable pub split_directive_name_value : Text → Text × Option Text
split_directive_name_value segment = elim (split_once b'=' segment) [
  | none ↦ (trim segment, none)
  | some parts ↦ (trim parts.0, some parts.1)
]

unfoldable pub apply_flag_name : Text → HstsDirectives → HstsDirectives
apply_flag_name name r =
    if eq_ignore_ascii_case name (codes "includesubdomains")
    then record r { include_subdomains = true }
    else if eq_ignore_ascii_case name (codes "preload")
    then record r { preload = true }
    else r

-- `char::is_ascii_whitespace`.
abbrev is_ascii_whitespace : ℕ → Bool
is_ascii_whitespace c = c == 32 || c == 9 || c == 10 || c == 12 || c == 13

abbrev is_grouping : ℕ → Bool
is_grouping c = c == b',' || c == b'_'

-- The digits, with those found so far reversed.
unfoldable pub age_digits : Text → Text → Text
age_digits [] digits = reverse digits
age_digits (c ∷ s) digits =
    let kept = age_digits s (c ∷ digits) in
    let skipped = age_digits s digits in
    if is_ascii_digit c
    then kept
    else if is_grouping c
    then skipped
    else if is_ascii_whitespace c && is_empty digits
    then skipped
    else reverse digits

abbrev bare_age : Text → Text
bare_age raw = trim (trim_matches (λ c. c == b'"') (trim raw))

-- An age that does not fit in a `u64` is none.
unfoldable pub parse_max_age_number : Text → Option ℕ
unfolding age_digits
parse_max_age_number raw = parse_unsigned 18446744073709551616 (age_digits (bare_age raw) [])

unfoldable pub remainder_from : Text → Bool → Option Text
remainder_from [] seen_digit = none
remainder_from (c ∷ s) seen_digit =
    let digit = remainder_from s true in
    let same = remainder_from s seen_digit in
    if is_ascii_digit c
    then digit
    else if is_grouping c
    then same
    else if is_ascii_whitespace c
    then (if seen_digit then some (c ∷ s) else same)
    else some (c ∷ s)

unfoldable pub remainder_after_max_age_number : Text → Option Text
unfolding remainder_from
remainder_after_max_age_number raw = remainder_from (bare_age raw) false

abbrev pub starts_digit : Text → Bool
starts_digit [] = false
starts_digit (c ∷ s) = is_ascii_digit c

unfoldable pub apply_flag_names : List Text → HstsDirectives → HstsDirectives
unfolding apply_flag_name
apply_flag_names [] r = r
apply_flag_names (part ∷ parts) r =
    let name = trim part in
    apply_flag_names parts
      (if is_empty name || starts_digit name then r else apply_flag_name name r)

abbrev pub flags_after : Option Text → HstsDirectives → HstsDirectives
flags_after none r = r
flags_after (some leftover) r = apply_flag_names (split_char b',' leftover) r

unfoldable pub apply_trailing_comma_flags : Text → HstsDirectives → HstsDirectives
unfolding remainder_after_max_age_number apply_flag_names
apply_trailing_comma_flags raw_age r = flags_after (remainder_after_max_age_number raw_age) r

abbrev pub is_max_age : Text → Bool
is_max_age name =
    eq_ignore_ascii_case name (codes "max-age") || eq_ignore_ascii_case name (codes "maxage")

unfoldable pub apply_max_age : Option Text → HstsDirectives → HstsDirectives
unfolding apply_trailing_comma_flags
apply_max_age none r = r
apply_max_age (some raw) r =
    apply_trailing_comma_flags raw (record r { max_age = parse_max_age_number raw })

unfoldable pub apply_directive : Text × Option Text → HstsDirectives → HstsDirectives
unfolding apply_max_age apply_flag_name
apply_directive (name, value) r =
    if is_max_age name then apply_max_age value r else apply_flag_name name r

unfoldable pub apply_hsts_segment : Text → HstsDirectives → HstsDirectives
unfolding apply_directive split_directive_name_value
apply_hsts_segment segment r =
    if is_empty (trim segment)
    then r
    else apply_directive (split_directive_name_value (trim segment)) r

unfoldable pub apply_hsts_segments : List Text → HstsDirectives → HstsDirectives
unfolding apply_hsts_segment
apply_hsts_segments [] r = r
apply_hsts_segments (segment ∷ segments) r =
    apply_hsts_segments segments (apply_hsts_segment segment r)

unfoldable pub parse_hsts_directive : Text → HstsDirectives
unfolding normalize_hsts_value apply_hsts_segments
parse_hsts_directive value =
    apply_hsts_segments (split_char b';' (normalize_hsts_value value)) no_directives
