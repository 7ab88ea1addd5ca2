-- ===== src/Headers/SameSite.antt =====
-- The words of the SameSite attribute.
use domain_status.Common.{
  ◌≡◌, refl, sym, ap, inl, inr, ◌||◌, Option, none, some, Text, codes, trim, to_ascii_lowercase,
  text_eq, text_eq_iff, if◌then◌else◌, Bool-cases,
}
use domain_status.Headers.SetCookie.{allowlisted_same_site, allowlisted}

-- What the value of a SameSite attribute says: in lower case, without blanks around, if it is one of
-- the three words.
abbrev pub same_site_word : Text → Option Text
same_site_word t =
    if text_eq t (codes "strict") || text_eq t (codes "lax") || text_eq t (codes "none")
    then some t
    else none

abbrev pub same_site_value : Option Text → Option Text
same_site_value none = none
same_site_value (some raw) = same_site_word (to_ascii_lowercase (trim raw))

first_word :
    (t : Text)
    → (if text_eq t (codes "strict")
        then some (codes "strict")
        else if text_eq t (codes "lax")
        then some (codes "lax")
        else if text_eq t (codes "none")
        then some (codes "none")
        else none)
      ≡ same_site_word t
first_word t = elim (Bool-cases (text_eq t (codes "strict"))) [
  | inl a ↦ rw (a, if◌then◌else◌) (ap some (sym ((text_eq_iff t (codes "strict")).0 a)))
  | inr a ↦ elim (Bool-cases (text_eq t (codes "lax"))) [
    | inl b ↦ rw (a, b, if◌then◌else◌) (ap some (sym ((text_eq_iff t (codes "lax")).0 b)))
    | inr b ↦ elim (Bool-cases (text_eq t (codes "none"))) [
      | inl c ↦ rw (a, b, c, if◌then◌else◌) (ap some (sym ((text_eq_iff t (codes "none")).0 c)))
      | inr c ↦ rw (a, b, c, if◌then◌else◌) refl
    ]
  ]
]

pub allowlisted-same_site_value : (value : Option Text) → allowlisted value ≡ same_site_value value
unfolding allowlisted_same_site
allowlisted-same_site_value none = refl
allowlisted-same_site_value (some raw) = first_word (to_ascii_lowercase (trim raw))
