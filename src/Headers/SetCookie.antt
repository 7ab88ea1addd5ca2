-- ===== src/Headers/SetCookie.antt =====
-- src/fetch/cookies.rs: the cookies of a response. `set_cookies` and `cookie` are the values of the
-- headers that are texts; `to_lowercase` is that of `str`.
use domain_status.Common.{
  Bool, true, false, Option, none, some, List, [], ◌∷◌, Text, codes, text_eq, trim, is_empty,
  split_char, split_once, eq_ignore_ascii_case, if◌then◌else◌,
}

pub record ParsedSetCookie : Type 0 where
  pub name : Text
  pub value : Option Text
  pub secure : Bool
  pub http_only : Bool
  pub same_site : Option Text
  pub domain : Option Text
  pub path : Option Text

-- The variables of the loop over the attributes.
pub record Attributes : Type 0 where
  pub secure : Bool
  pub http_only : Bool
  pub same_site : Option Text
  pub same_site_invalid : Bool
  pub domain : Option Text
  pub path : Option Text

abbrev pub no_attributes : Attributes
no_attributes = record {
  secure = false;
  http_only = false;
  same_site = none;
  same_site_invalid = false;
  domain = none;
  path = none;
}

unfoldable pub allowlisted_same_site : Text → Option Text
allowlisted_same_site raw =
    let token = trim raw in
    if eq_ignore_ascii_case token (codes "strict")
    then some (codes "strict")
    else if eq_ignore_ascii_case token (codes "lax")
    then some (codes "lax")
    else if eq_ignore_ascii_case token (codes "none")
    then some (codes "none")
    else none

abbrev pub allowlisted : Option Text → Option Text
allowlisted none = none
allowlisted (some raw) = allowlisted_same_site raw

-- A SameSite token that is not allowed, or one that is, for the first time.
abbrev pub first_same_site : Text → Bool → Option Text → Option Text
first_same_site value true s = s
first_same_site value false none = some value
first_same_site value false (some s) = some s

unfoldable pub apply_same_site : Option Text → Attributes → Attributes
apply_same_site none a = record a { same_site = none; same_site_invalid = true }
apply_same_site (some value) a = record a {
  same_site = first_same_site value a.same_site_invalid a.same_site;
}

abbrev non_empty : Option Text → Option Text
non_empty none = none
non_empty (some v) = if is_empty v then none else some v

-- The name and the value of an attribute, both trimmed.
unfoldable pub split_attribute : Text → Text × Option Text
split_attribute part = elim (split_once b'=' part) [
  | none ↦ (part, none)
  | some parts ↦ (trim parts.0, some (trim parts.1))
]

unfoldable pub apply_attribute : Text × Option Text → Attributes → Attributes
unfolding apply_same_site
apply_attribute (name, value) a =
    if eq_ignore_ascii_case name (codes "secure")
    then record a { secure = true }
    else if eq_ignore_ascii_case name (codes "httponly")
    then record a { http_only = true }
    else if eq_ignore_ascii_case name (codes "samesite")
    then apply_same_site (allowlisted value) a
    else if eq_ignore_ascii_case name (codes "domain")
    then record a { domain = non_empty value }
    else if eq_ignore_ascii_case name (codes "path")
    then record a { path = value }
    else a

unfoldable pub apply_attributes : List Text → Attributes → Attributes
unfolding apply_attribute split_attribute
apply_attributes [] a = a
apply_attributes (part ∷ parts) a =
    apply_attributes parts
      (if is_empty (trim part) then a else apply_attribute (split_attribute (trim part)) a)

abbrev pub name_and_value : Text → Text × Option Text
name_and_value s = elim (split_once b'=' s) [
  | none ↦ (trim s, none)
  | some parts ↦ (trim parts.0, some (trim parts.1))
]

unfoldable pub of_attributes : Text × Option Text → Attributes → ParsedSetCookie
of_attributes (name, value) a = record {
  name = name;
  value = value;
  secure = a.secure;
  http_only = a.http_only;
  same_site = a.same_site;
  domain = a.domain;
  path = a.path;
}

unfoldable pub of_cookie_parts : List Text → Option ParsedSetCookie
unfolding of_attributes apply_attributes
of_cookie_parts [] = none
of_cookie_parts (first ∷ parts) =
    if is_empty (name_and_value first).0
    then none
    else some (of_attributes (name_and_value first) (apply_attributes parts no_attributes))

unfoldable pub parse_set_cookie : Text → Option ParsedSetCookie
unfolding of_cookie_parts
parse_set_cookie s = of_cookie_parts (split_char b';' s)

abbrev keep_cookie : Option ParsedSetCookie → List ParsedSetCookie → List ParsedSetCookie
keep_cookie none cookies = cookies
keep_cookie (some c) cookies = c ∷ cookies

unfoldable pub parse_all_set_cookies : List Text → List ParsedSetCookie
unfolding parse_set_cookie
parse_all_set_cookies [] = []
parse_all_set_cookies (s ∷ set_cookies) =
    keep_cookie (parse_set_cookie s) (parse_all_set_cookies set_cookies)

-- `CookieInfo`.
pub record CookieInfo : Type 0 where
  pub name : Text
  pub secure : Bool
  pub http_only : Bool
  pub same_site : Option Text
  pub domain : Option Text
  pub path : Option Text

unfoldable pub cookie_infos : List ParsedSetCookie → List CookieInfo
cookie_infos [] = []
cookie_infos (c ∷ cookies) =
    record {
      name = c.name;
      secure = c.secure;
      http_only = c.http_only;
      same_site = c.same_site;
      domain = c.domain;
      path = c.path;
    }
    ∷ cookie_infos cookies

unfoldable pub extract_cookie_infos : List Text → List CookieInfo
unfolding cookie_infos parse_all_set_cookies
extract_cookie_infos set_cookies = cookie_infos (parse_all_set_cookies set_cookies)

-- `HashMap::insert`.
abbrev insert : Text → Text → List (Text × Text) → List (Text × Text)
insert k v [] = (k, v) ∷ []
insert k v ((k', v') ∷ m) = if text_eq k k' then (k', v) ∷ m else (k', v') ∷ insert k v m

module _ (to_lowercase : Text → Text) where
  abbrev insert_some : Text → Option Text → List (Text × Text) → List (Text × Text)
  insert_some name none m = m
  insert_some name (some value) m = insert (to_lowercase name) (to_lowercase value) m

  unfoldable pub value_map : List ParsedSetCookie → List (Text × Text) → List (Text × Text)
  value_map [] m = m
  value_map (c ∷ cookies) m = value_map cookies (insert_some c.name c.value m)

  abbrev insert_pair : Option (Text × Text) → List (Text × Text) → List (Text × Text)
  insert_pair none m = m
  insert_pair (some (name, value)) m =
      insert (to_lowercase (trim name)) (to_lowercase (trim value)) m

  unfoldable pub insert_pairs : List Text → List (Text × Text) → List (Text × Text)
  insert_pairs [] m = m
  insert_pairs (pair ∷ pairs) m = insert_pairs pairs (insert_pair (split_once b'=' (trim pair)) m)

  abbrev cookie_header : Option Text → List (Text × Text) → List (Text × Text)
  cookie_header none m = m
  cookie_header (some cookie) m = insert_pairs (split_char b';' cookie) m

  unfoldable pub extract_cookies_name_value_map : List Text → Option Text → List (Text × Text)
  unfolding value_map insert_pairs parse_all_set_cookies
  extract_cookies_name_value_map set_cookies cookie =
      cookie_header cookie (value_map (parse_all_set_cookies set_cookies) [])
