-- ===== src/Run/Lines.antt =====
-- What becomes of a line of the input: src/app/url.rs and the first half of the loop of run_scan in
-- src/run/mod.rs.
use domain_status.Common.{
  ℕ, Bool, true, false, ◌||◌, none, some, ◌++◌, min, Text, codes, contains, starts_with, trim,
  is_empty, utf8_len, is_char_boundary, ok, err, ltb, if◌then◌else◌,
}
use domain_status.Security.Url.{UrlCrate, is_http_scheme, validate_url_safe}

abbrev pub max_url_length : ℕ
max_url_length = 2048

-- `panicked`: the slice of a warning does not end at a character.
pub data Normalized : Type 0 where
  panicked rejected : Normalized
  normalized : Text → Normalized

-- The warning on a URL that is too long, with its first 50 bytes. `warn!` evaluates the slice only
-- where the logger takes warnings, as `warns` says.
unfoldable pub reject_long : Bool → Text → Normalized
reject_long false url = rejected
reject_long true url = if is_char_boundary url (min 50 (utf8_len url)) then rejected else panicked

-- The prefix `https://` only where no scheme is present.
unfoldable pub with_scheme : Text → Text
with_scheme url = if contains (codes "://") url then url else codes "https://" ++ url

pub data LineVerdict : Type 0 where
  crashes ignored skips : LineVerdict
  attempts : Text → LineVerdict

module _ (crate : UrlCrate) where
  unfoldable pub accept_scheme : Text → Normalized
  accept_scheme url = elim (crate.parse url) [
    | none ↦ rejected
    | some u ↦ if is_http_scheme u.scheme then normalized url else rejected
  ]

  -- The SSRF guard on a URL of the input.
  unfoldable pub guard_url : Bool → Text → LineVerdict
  guard_url allow_localhost url =
      if allow_localhost
      then attempts url
      else elim (validate_url_safe crate url) [ err e ↦ skips | ok u ↦ attempts url ]

  unfoldable pub on_normalized : Bool → Normalized → LineVerdict
  unfolding guard_url
  on_normalized allow_localhost panicked = crashes
  on_normalized allow_localhost rejected = skips
  on_normalized allow_localhost (normalized url) = guard_url allow_localhost url

module _ (warns : Bool) (crate : UrlCrate) where
  unfoldable pub validate_and_normalize_url : Text → Normalized
  unfolding reject_long accept_scheme
  validate_and_normalize_url url =
      let long = with_scheme url in
      if ltb max_url_length (utf8_len url)
      then reject_long warns url
      else if ltb max_url_length (utf8_len long)
      then reject_long warns long
      else accept_scheme crate long

  unfoldable pub read_line : Bool → Text → LineVerdict
  unfolding on_normalized
  read_line allow_localhost line =
      let trimmed = trim line in
      if is_empty trimmed || starts_with (codes "#") trimmed
      then ignored
      else on_normalized crate allow_localhost (validate_and_normalize_url trimmed)
