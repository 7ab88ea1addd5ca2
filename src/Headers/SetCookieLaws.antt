-- ===== src/Headers/SetCookieLaws.antt =====
-- The SameSite attribute of a cookie.
use domain_status.Common.{
  ◌≡◌, Bool, not, ◌&&◌, Option, none, some, List, [], ◌∷◌, Text, codes, trim, is_empty,
  eq_ignore_ascii_case, if◌then◌else◌, any, is_some,
}
use domain_status.Headers.SameSite.{same_site_value}
use domain_status.Headers.SetCookie.{Attributes, split_attribute, apply_attribute}

abbrev pub is_same_site : Text → Bool
is_same_site name = eq_ignore_ascii_case name (codes "samesite")

-- The SameSite tokens among the attributes, in their order; a token that is not allowed is `none`.
abbrev pub same_site_tokens : List Text → List (Option Text)
same_site_tokens [] = []
same_site_tokens (part ∷ parts) =
    let rest = same_site_tokens parts in
    if not (is_empty (trim part)) && is_same_site (split_attribute (trim part)).0
    then same_site_value (split_attribute (trim part)).1 ∷ rest
    else rest

abbrev pub first_token : Option Text → List (Option Text) → Option Text
first_token (some s) tokens = some s
first_token none [] = none
first_token none (t ∷ tokens) = t

-- The value that the tokens agree on behind a known one: none if one of them is not allowed, else the
-- first.
abbrev pub agreed : Option Text → List (Option Text) → Option Text
agreed s tokens = if any (λ t. not (is_some t)) tokens then none else first_token s tokens

abbrev Untouched : Attributes → Attributes → Type 0
Untouched a b = (b.same_site ≡ a.same_site) × (b.same_site_invalid ≡ a.same_site_invalid)

next_attributes : Text → Attributes → Attributes
next_attributes part a =
    if is_empty (trim part) then a else apply_attribute (split_attribute (trim part)) a

abbrev has_token : Text → Bool
has_token part = not (is_empty (trim part)) && is_same_site (split_attribute (trim part)).0

abbrev pub behind_first : List Text → List Text
behind_first [] = []
behind_first (first ∷ parts) = parts
