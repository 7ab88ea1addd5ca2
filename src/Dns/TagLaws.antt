-- ===== src/Dns/TagLaws.antt =====
-- What a tag at the start of a TXT record says of the record.
use domain_status.Common.{
  ℕ, ◌-◌, ◌≡◌, refl, inl, inr, Bool, true, false, ◌||◌, none, some, [], ◌∷◌, arith, Text, trim,
  text_eq_iff, starts_with, to_ascii_lowercase, to_ascii_lower, utf8_width, utf8_len,
  is_char_boundary, leb, if◌then◌else◌, Bool-cases, ==_self,
}
use domain_status.Sanitize.{slice_to, before_byte}
use domain_status.Dns.Extract.{is_tag, starts_with_tag}

before_byte-starts_with :
    (n : ℕ) (s : Text)
    → starts_with (to_ascii_lowercase (before_byte n s)) (to_ascii_lowercase s) ≡ true
unfolding before_byte
before_byte-starts_with n [] = refl
before_byte-starts_with n (c ∷ s) = elim (Bool-cases (leb (utf8_width c) n)) [
  | inl w ↦
      rw (w, if◌then◌else◌)
        (rw (==_self (to_ascii_lower c)) (before_byte-starts_with (n - utf8_width c) s))
  | inr w ↦ rw (w, if◌then◌else◌) refl
]

starts_with_tag-lowercase :
    (txt tag : Text)
    → starts_with_tag txt tag ≡ true
    → starts_with (to_ascii_lowercase tag) (to_ascii_lowercase (trim txt)) ≡ true
unfolding starts_with_tag slice_to
starts_with_tag-lowercase txt tag h =
    go (trim txt) (utf8_len tag) (is_char_boundary (trim txt) (utf8_len tag)) h
  where
    go :
        (s : Text) (n : ℕ) (b : Bool)
        → is_tag tag (if b then some (before_byte n s) else none) ≡ true
        → starts_with (to_ascii_lowercase tag) (to_ascii_lowercase s) ≡ true
    go s n false e = cc
    go s n true e =
        let same =
          (text_eq_iff (to_ascii_lowercase (before_byte n s)) (to_ascii_lowercase tag)).0 e in
        rw same at (before_byte-starts_with n s)

-- Two prefixes of a text are prefixes of one another.
starts_with-both :
    (a b s : Text)
    → starts_with a s ≡ true
    → starts_with b s ≡ true
    → (starts_with a b || starts_with b a) ≡ true
starts_with-both [] b s h k = refl
starts_with-both (x ∷ a) [] s h k = refl
starts_with-both (x ∷ a) (y ∷ b) [] h k = cc
starts_with-both (x ∷ a) (y ∷ b) (z ∷ s) h k = ground (arith, starts_with-both a b s)

-- No text has two tags of which neither is a prefix of the other, in any case.
pub starts_with_tag_exclusive :
    (txt a b : Text)
    → (starts_with (to_ascii_lowercase a) (to_ascii_lowercase b)
        || starts_with (to_ascii_lowercase b) (to_ascii_lowercase a))
      ≡ false
    → starts_with_tag txt a ≡ true
    → starts_with_tag txt b ≡ false
starts_with_tag_exclusive txt a b apart h = elim (Bool-cases (starts_with_tag txt b)) [
  | inr k ↦ k
  | inl k ↦
      let both =
        starts_with-both (to_ascii_lowercase a) (to_ascii_lowercase b)
          (to_ascii_lowercase (trim txt)) (starts_with_tag-lowercase txt a h)
          (starts_with_tag-lowercase txt b k) in
      cc
]
