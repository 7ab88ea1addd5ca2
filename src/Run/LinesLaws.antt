-- ===== src/Run/LinesLaws.antt =====
-- Which lines of the input become URLs that are fetched.
use domain_status.Common.{
  ℕ, ◌≤◌, ◌<◌, ◌≡◌, refl, sym, ◌↔◌, ◌⊎◌, inl, inr, Bool, true, false, some, arith, Text, min, ltb,
  lt→ltb, Bool-cases, Option-cases, Result-cases, if◌then◌else◌, is_empty, starts_with, codes, ◌||◌,
  trim, utf8_len, is_char_boundary,
}
use domain_status.Security.Url.{Url, UrlCrate, is_http_scheme, validate_url_safe}
use domain_status.Security.UrlSafety.{IsSafeUrl, validate_url_safe_iff}
use domain_status.Run.Lines.{
  Normalized, panicked, rejected, normalized, reject_long, with_scheme, accept_scheme,
  max_url_length, validate_and_normalize_url, attempts, guard_url, on_normalized, read_line,
}

-- `t` is `url` with a scheme, within the limit before and after, and parses as http or https.
pub record IsNormalized (crate : UrlCrate) (url t : Text) : Type 0 where
  pub schemed : t ≡ with_scheme url
  pub short : utf8_len url ≤ 2048
  pub still_short : utf8_len t ≤ 2048
  pub parsed : (u : Url) × (crate.parse t ≡ some u) × (is_http_scheme u.scheme ≡ true)

-- The warning about a text that is too long is cut inside of a character.
abbrev pub CutsChar : Text → Type 0
CutsChar url = is_char_boundary url (min 50 (utf8_len url)) ≡ false

reject_long-not-normalized :
    (warns : Bool) (url t : Text) → reject_long warns url ≡ normalized t → ⊥
unfolding reject_long
reject_long-not-normalized true url t e = ground arith
reject_long-not-normalized false url t e = ground arith

reject_long_panics :
    (warns : Bool) (url : Text) → (reject_long warns url ≡ panicked) ↔ (warns ≡ true × CutsChar url)
unfolding reject_long
reject_long_panics true url = ground arith
reject_long_panics false url = ground arith

-- The two tests on the length, of texts of `n` and `m` bytes.
abbrev two_tests : ℕ → ℕ → Normalized → Normalized → Normalized → Normalized
two_tests n m c d r = if ltb 2048 n then c else if ltb 2048 m then d else r

two_tests_panics :
    (n m : ℕ) (c d r : Normalized)
    → (r ≡ panicked → ⊥)
    → two_tests n m c d r ≡ panicked
    → (2048 < n × c ≡ panicked) ⊎ (n ≤ 2048 × 2048 < m × d ≡ panicked)
two_tests_panics n m c d r k e = elim (Bool-cases (ltb 2048 n)) [
  | inl a ↦ inl (ground arith, rw (a, if◌then◌else◌) at e)
  | inr a ↦ elim (Bool-cases (ltb 2048 m)) [
    | inl b ↦
        inr (ground arith, ground arith, rw (b, if◌then◌else◌) at (rw (a, if◌then◌else◌) at e))
    | inr b ↦ absurd (k (rw (b, if◌then◌else◌) at (rw (a, if◌then◌else◌) at e)))
  ]
]

panics_of_tests :
    (n m : ℕ) (c d r : Normalized)
    → (2048 < n × c ≡ panicked) ⊎ (n ≤ 2048 × 2048 < m × d ≡ panicked)
    → two_tests n m c d r ≡ panicked
panics_of_tests n m c d r (inl (h, e)) = rw (lt→ltb 2048 n h, if◌then◌else◌) e
panics_of_tests n m c d r (inr (h, l, e)) =
    let f : ltb 2048 n ≡ false = ground arith in
    rw (f, if◌then◌else◌) (rw (lt→ltb 2048 m l, if◌then◌else◌) e)

module _ (crate : UrlCrate) where
  scheme_accepted :
      (url t : Text)
      → accept_scheme crate url ≡ normalized t
      → (t ≡ url) × ((u : Url) × (crate.parse url ≡ some u) × (is_http_scheme u.scheme ≡ true))
  unfolding accept_scheme
  scheme_accepted url t e = elim (Option-cases (crate.parse url)) [
    | inl h ↦ absurd (ground arith)
    | inr (u, h) ↦ elim (Bool-cases (is_http_scheme u.scheme)) [
      | inl b ↦ (ground arith, (u, h, b))
      | inr b ↦ absurd (ground arith)
    ]
  ]

  scheme_accepts :
      (url : Text) (u : Url)
      → crate.parse url ≡ some u
      → is_http_scheme u.scheme ≡ true
      → accept_scheme crate url ≡ normalized url
  unfolding accept_scheme
  scheme_accepts url u p h = ground arith

  long_free : (url : Text) → utf8_len url ≤ 2048 → ltb max_url_length (utf8_len url) ≡ false
  long_free url h = ground arith

  scheme-not-panicked : (url : Text) → accept_scheme crate url ≡ panicked → ⊥
  unfolding accept_scheme
  scheme-not-panicked url e = elim (Option-cases (crate.parse url)) [
    | inl h ↦ absurd (ground arith)
    | inr (u, h) ↦ elim (Bool-cases (is_http_scheme u.scheme)) [
      | inl b ↦ absurd (ground arith)
      | inr b ↦ absurd (ground arith)
    ]
  ]

module _ (warns : Bool) (crate : UrlCrate) where
  normalized-IsNormalized :
      (url t : Text)
      → validate_and_normalize_url warns crate url ≡ normalized t
      → IsNormalized crate url t
  unfolding validate_and_normalize_url
  normalized-IsNormalized url t e = elim (Bool-cases (ltb max_url_length (utf8_len url))) [
    | inl a ↦ absurd (reject_long-not-normalized warns url t (rw (a, if◌then◌else◌) at e))
    | inr a ↦ elim (Bool-cases (ltb max_url_length (utf8_len (with_scheme url)))) [
      | inl b ↦ absurd (
          reject_long-not-normalized warns (with_scheme url) t
            (rw (b, if◌then◌else◌) at (rw (a, if◌then◌else◌) at e)))
      | inr b ↦
          let x =
            scheme_accepted crate (with_scheme url) t
              (rw (b, if◌then◌else◌) at (rw (a, if◌then◌else◌) at e)) in
          record {
            schemed = x.0;
            short = ground arith;
            still_short = rw x.0 (ground arith);
            parsed = rw x.0 x.1;
          }
    ]
  ]

  IsNormalized-normalized :
      (url t : Text)
      → IsNormalized crate url t
      → validate_and_normalize_url warns crate url ≡ normalized t
  unfolding validate_and_normalize_url
  IsNormalized-normalized url t n =
      let (u, p, h) = n.parsed in
      rw (long_free crate url n.short, if◌then◌else◌)
        (rw (sym n.schemed)
          (rw (long_free crate t n.still_short, if◌then◌else◌) (scheme_accepts crate t u p h)))

  -- validate_and_normalize_url returns exactly the texts that are the input with a scheme, at most
  -- 2048 bytes long with it and without, and parse as an http or https URL.
  pub validate_and_normalize_url_iff :
      (url t : Text)
      → (validate_and_normalize_url warns crate url ≡ normalized t) ↔ IsNormalized crate url t
  validate_and_normalize_url_iff url t =
      (normalized-IsNormalized url t, IsNormalized-normalized url t)

  guarded-IsSafeUrl :
      (url t : Text) → guard_url crate false url ≡ attempts t → (url ≡ t) × IsSafeUrl crate t
  unfolding guard_url
  guarded-IsSafeUrl url t e = elim (Result-cases (validate_url_safe crate url)) [
    | inl (u, h) ↦
        let same : url ≡ t = ground arith in
        (same, rw same at ((validate_url_safe_iff crate url).0 h))
    | inr (x, h) ↦ absurd (ground arith)
  ]

  attempts-IsSafeUrl :
      (url t : Text) (n : Normalized)
      → validate_and_normalize_url warns crate url ≡ n
      → on_normalized crate false n ≡ attempts t
      → IsNormalized crate url t × IsSafeUrl crate t
  unfolding on_normalized
  attempts-IsSafeUrl url t panicked v e = absurd (ground arith)
  attempts-IsSafeUrl url t rejected v e = absurd (ground arith)
  attempts-IsSafeUrl url t (normalized x) v e =
      let (same, safe) = guarded-IsSafeUrl x t e in
      (rw same at (normalized-IsNormalized url x v), safe)

  -- Where localhost is not allowed, each line that is fetched is neither empty nor a comment once
  -- trimmed, its URL is that text with a scheme, within 2048 bytes, and the guard accepts it.
  pub read_line-IsSafeUrl :
      (line t : Text)
      → read_line warns crate false line ≡ attempts t
      → ((is_empty (trim line) || starts_with (codes "#") (trim line)) ≡ false)
        × IsNormalized crate (trim line) t
        × IsSafeUrl crate t
  unfolding read_line
  read_line-IsSafeUrl line t e =
      elim (Bool-cases (is_empty (trim line) || starts_with (codes "#") (trim line))) [
        | inl a ↦ let f = rw (a, if◌then◌else◌) at e in absurd (ground arith)
        | inr a ↦
            let (n, s) =
              attempts-IsSafeUrl (trim line) t (validate_and_normalize_url warns crate (trim line))
                refl (rw (a, if◌then◌else◌) at e) in
            (a, n, s)
      ]

  -- validate_and_normalize_url panics exactly where the logger takes warnings, on the texts that are
  -- too long, with or without the scheme, and whose first 50 bytes end inside of a character.
  pub validate_and_normalize_url_panics_iff :
      (url : Text)
      → (validate_and_normalize_url warns crate url ≡ panicked) ↔ (
          (2048 < utf8_len url × (warns ≡ true × CutsChar url))
          ⊎ (utf8_len url ≤ 2048
              × 2048 < utf8_len (with_scheme url)
              × (warns ≡ true × CutsChar (with_scheme url))))
  unfolding validate_and_normalize_url
  validate_and_normalize_url_panics_iff url =
      let long = with_scheme url in
      (
        λ e. either_long (
            two_tests_panics (utf8_len url) (utf8_len long) (reject_long warns url)
              (reject_long warns long) (accept_scheme crate long) (scheme-not-panicked crate long)
              e),
        λ h.
            panics_of_tests (utf8_len url) (utf8_len long) (reject_long warns url)
              (reject_long warns long) (accept_scheme crate long) (long_either h),
      )
    where
      either_long :
          (2048 < utf8_len url × reject_long warns url ≡ panicked)
            ⊎ (utf8_len url ≤ 2048
                × 2048 < utf8_len (with_scheme url)
                × reject_long warns (with_scheme url) ≡ panicked)
          → (2048 < utf8_len url × (warns ≡ true × CutsChar url))
            ⊎ (utf8_len url ≤ 2048
                × 2048 < utf8_len (with_scheme url)
                × (warns ≡ true × CutsChar (with_scheme url)))
      either_long (inl (l, e)) = inl (l, (reject_long_panics warns url).0 e)
      either_long (inr (k, l, e)) = inr (k, l, (reject_long_panics warns (with_scheme url)).0 e)

      long_either :
          (2048 < utf8_len url × (warns ≡ true × CutsChar url))
            ⊎ (utf8_len url ≤ 2048
                × 2048 < utf8_len (with_scheme url)
                × (warns ≡ true × CutsChar (with_scheme url)))
          → (2048 < utf8_len url × reject_long warns url ≡ panicked)
            ⊎ (utf8_len url ≤ 2048
                × 2048 < utf8_len (with_scheme url)
                × reject_long warns (with_scheme url) ≡ panicked)
      long_either (inl (l, e)) = inl (l, (reject_long_panics warns url).1 e)
      long_either (inr (k, l, e)) = inr (k, l, (reject_long_panics warns (with_scheme url)).1 e)
