-- ===== src/Detection/Needles.antt =====
-- src/fingerprint/patterns/literals.rs: the literal text of a pattern, and the literal prefix of one that
-- is none.
use domain_status.Common.{
  ℕ, Bool, true, false, not, ◌&&◌, ◌||◌, Option, none, some, [], ◌∷◌, Text, codes,
  to_ascii_lowercase, utf8_len, within, ltb, leb, ◌==◌, if◌then◌else◌, any, is_ascii_digit,
}
use mathlib.Core.List.{reverse}
use domain_status.Detection.Version.{backslash}
use domain_status.Detection.Patterns.{is_regex_pattern}

abbrev is_ascii : ℕ → Bool
is_ascii c = ltb c 128

abbrev all_ascii : Text → Bool
all_ascii [] = true
all_ascii (c ∷ s) = is_ascii c && all_ascii s

abbrev is_ascii_alphanumeric : ℕ → Bool
is_ascii_alphanumeric c = is_ascii_digit c || within b'a' b'z' c || within b'A' b'Z' c

-- Whether a backslash in front of the character makes it literal.
abbrev pub escapes_punctuation : ℕ → Bool
escapes_punctuation c = is_ascii c && not (is_ascii_alphanumeric c)

abbrev pub is_metacharacter : ℕ → Bool
is_metacharacter c = any (λ x. x == c) (codes "^$[]()*+?{}|.")

abbrev pub cons_some : ℕ → Option Text → Option Text
cons_some c none = none
cons_some c (some s) = some (c ∷ s)

unfoldable pub unescape_escaped_literal : Text → Option Text
unescape_escaped_literal [] = some []
unescape_escaped_literal (c ∷ []) =
    if c == backslash then none else if is_metacharacter c then none else some (c ∷ [])
unescape_escaped_literal (c ∷ d ∷ s) =
    let escaped = cons_some d (unescape_escaped_literal s) in
    let plain = cons_some c (unescape_escaped_literal (d ∷ s)) in
    if c == backslash
    then (if escapes_punctuation d then escaped else none)
    else if is_metacharacter c
    then none
    else plain

abbrev lower : Option Text → Option Text
lower none = none
lower (some s) = some (to_ascii_lowercase s)

unfoldable pub ascii_literal_needle : Text → Option Text
unfolding unescape_escaped_literal
ascii_literal_needle pat =
    if not (all_ascii pat)
    then none
    else if is_regex_pattern pat
    then lower (unescape_escaped_literal pat)
    else some (to_ascii_lowercase pat)

abbrev pop : Text → Text
pop [] = []
pop (c ∷ s) = s

abbrev next_is_zero : Text → Bool
next_is_zero [] = false
next_is_zero (c ∷ s) = c == b'0'

-- A character that ends the prefix, with what stands behind it and the prefix so far, reversed.
abbrev pub ends_prefix : ℕ → Text → Text → Option (Option Text)
ends_prefix c s out =
    if c == b'|'
    then some none
    else if any (λ x. x == c) (codes "([.^$")
    then some (some out)
    else if c == b'*' || c == b'?'
    then some (some (pop out))
    else if c == b'{'
    then some (some (if next_is_zero s then pop out else out))
    else if c == b'+'
    then some (some out)
    else if is_ascii c
    then none
    else some (some out)

abbrev ended_or : Option (Option Text) → Option Text → Option Text
ended_or none more = more
ended_or (some ended) more = ended

-- The loop, with the prefix so far reversed.
unfoldable pub prefix_loop : Text → Text → Option Text
prefix_loop [] out = some out
prefix_loop (c ∷ []) out =
    if c == backslash then none else ended_or (ends_prefix c [] out) (some (c ∷ out))
prefix_loop (c ∷ d ∷ s) out =
    let escaped = prefix_loop s (d ∷ out) in
    let plain = prefix_loop (d ∷ s) (c ∷ out) in
    if c == backslash
    then (if escapes_punctuation d then escaped else some out)
    else ended_or (ends_prefix c (d ∷ s) out) plain

abbrev long_enough : Option Text → Option Text
long_enough none = none
long_enough (some out) =
    if leb 4 (utf8_len out) then some (to_ascii_lowercase (reverse out)) else none

unfoldable pub mandatory_prefix : Text → Option Text
unfolding prefix_loop
mandatory_prefix pat = long_enough (prefix_loop pat [])
