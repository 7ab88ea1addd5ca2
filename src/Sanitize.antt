-- ===== src/Sanitize.antt =====
-- src/utils/sanitize.rs: error messages as they are stored. `none` is the panic of a slice that does
-- not end at a character.
pub mod Laws
pub mod Stored
mod Tests
use domain_status.Common.{
  ℕ, zero, suc, ◌+◌, ◌-◌, ◌/◌, ◌%◌, Bool, true, false, ◌||◌, Option, none, some, List, [], ◌∷◌,
  ◌++◌, Text, codes, utf8_width, utf8_len, is_char_boundary, ltb, leb, ◌==◌, if◌then◌else◌, length,
}

unfoldable pub is_kept : ℕ → Bool
is_kept code = leb 32 code || code == 9 || code == 10 || code == 13 || ltb 127 code

unfoldable pub sanitize_error_message : Text → Text
sanitize_error_message [] = []
sanitize_error_message (c ∷ s) =
    let rest = sanitize_error_message s in if is_kept c then c ∷ rest else rest

-- The characters of a text that lie before the byte `n`.
unfoldable pub before_byte : ℕ → Text → Text
before_byte n [] = []
before_byte n (c ∷ s) =
    let rest = before_byte (n - utf8_width c) s in if leb (utf8_width c) n then c ∷ rest else []

-- `&value[..end]`.
unfoldable pub slice_to : Text → ℕ → Option Text
unfolding before_byte
slice_to value end = if is_char_boundary value end then some (before_byte end value) else none

-- The `while` loop, which counts `end` down to a boundary.
unfoldable pub floor_char_boundary : Text → ℕ → ℕ
floor_char_boundary value zero = 0
floor_char_boundary value (suc end) =
    let lower = floor_char_boundary value end in
    if is_char_boundary value (suc end) then suc end else lower

unfoldable pub truncate_at_char_boundary : Text → ℕ → Option Text
unfolding slice_to floor_char_boundary
truncate_at_char_boundary value max_len =
    if leb (utf8_len value) max_len
    then some value
    else slice_to value (floor_char_boundary value max_len)

unfoldable pub truncate_utf8 : Text → ℕ → Option Text
unfolding truncate_at_char_boundary
truncate_utf8 value max_len = truncate_at_char_boundary value max_len

abbrev pub with_suffix : Text → Option Text → Option Text
with_suffix suffix none = none
with_suffix suffix (some prefix) = some (prefix ++ suffix)

unfoldable pub truncate_utf8_with_suffix : Text → ℕ → Text → Option Text
unfolding truncate_utf8
truncate_utf8_with_suffix value max_len suffix =
    if leb (utf8_len value) max_len
    then some value
    else if max_len == 0
    then some []
    else if leb max_len (utf8_len suffix)
    then truncate_utf8 suffix max_len
    else with_suffix suffix (truncate_at_char_boundary value (max_len - utf8_len suffix))

-- `to_string` of a number, by the digits that are left: a number has at most as many digits as
-- its value and one.
abbrev pub digits : ℕ → ℕ → Text → Text
digits zero n s = s
digits (suc fuel) n s =
    let printed = (48 + n % 10) ∷ s in
    let rest = digits fuel (n / 10) printed in if ltb n 10 then printed else rest

abbrev pub decimal : ℕ → Text
decimal n = digits (n + 1) n []

abbrev pub max_error_message_length : ℕ
max_error_message_length = 2000

abbrev pub truncation_suffix : ℕ → Text
truncation_suffix n = codes "... (truncated, original length: " ++ (decimal n ++ codes " chars)")

unfoldable pub sanitize_and_truncate_error_message : Text → Option Text
unfolding truncate_utf8_with_suffix sanitize_error_message
sanitize_and_truncate_error_message message =
    let sanitized = sanitize_error_message message in
    if ltb max_error_message_length (utf8_len sanitized)
    then truncate_utf8_with_suffix sanitized max_error_message_length
        (truncation_suffix (length sanitized))
    else some sanitized
