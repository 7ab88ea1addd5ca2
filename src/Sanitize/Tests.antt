-- ===== src/Sanitize/Tests.antt =====
-- Messages that are cut.
use domain_status.Common.{◌≤◌, ◌≡◌, refl, some, [], ◌∷◌, Text, codes, utf8_len, All}
use domain_status.Sanitize.{
  is_kept, truncate_utf8, truncate_utf8_with_suffix, sanitize_and_truncate_error_message,
}
use domain_status.Sanitize.Stored.{IsPrintable, message_stored}

-- Byte 4 lies inside of the second of two characters of three bytes.
abbrev wide : Text
wide = 97 ∷ 8364 ∷ 8364 ∷ []

wide_run : truncate_utf8 wide 5 ≡ some (97 ∷ 8364 ∷ [])
unfolding truncate_utf8
wide_run = refl

suffix_run : truncate_utf8_with_suffix (codes "abcdefgh") 5 (codes "..") ≡ some (codes "abc..")
unfolding truncate_utf8_with_suffix
suffix_run = refl

control_run : sanitize_and_truncate_error_message (97 ∷ 7 ∷ 10 ∷ 98 ∷ []) ≡ some (97 ∷ 10 ∷ 98 ∷ [])
unfolding sanitize_and_truncate_error_message is_kept
control_run = refl

message_stored_example :
    (t : Text) × (sanitize_and_truncate_error_message (7 ∷ wide) ≡ some t)
    × (utf8_len t ≤ 2000)
    × All IsPrintable t
message_stored_example = message_stored (7 ∷ wide)
