-- ===== src/Detection/Ruleset.antt =====
-- src/fingerprint/models.rs, the ruleset, and src/fingerprint/detection/source.rs with
-- `parse_detection_source`. A map is an association list in the order of its iteration.
use domain_status.Common.{
  ℕ, Bool, Option, none, some, List, [], ◌∷◌, Text, codes, text_eq, ◌==◌, if◌then◌else◌, is_some,
  get,
}

pub record Technology : Type 0 where
  pub cats : List ℕ
  pub website : Text
  pub headers : List (Text × Text)
  pub cookies : List (Text × Text)
  pub meta : List (Text × List Text)
  pub script : List Text
  pub scripts : List Text
  pub html : List Text
  pub url : List Text
  pub dns : List (Text × List Text)
  pub cert_issuer : List Text
  pub js : List (Text × Text)
  pub implies : List Text
  pub excludes : List Text
  pub requires : List Text
  pub requires_category : List ℕ

-- `Technology::default`.
abbrev pub default_technology : Technology
default_technology = record {
  cats = [];
  website = [];
  headers = [];
  cookies = [];
  meta = [];
  script = [];
  scripts = [];
  html = [];
  url = [];
  dns = [];
  cert_issuer = [];
  js = [];
  implies = [];
  excludes = [];
  requires = [];
  requires_category = [];
}

pub record FingerprintRuleset : Type 0 where
  pub technologies : List (Text × Technology)
  pub categories : List (ℕ × Text)

abbrev pub technology_of : FingerprintRuleset → Text → Option Technology
technology_of rules name = get name rules.technologies

-- `contains_key`.
abbrev pub is_technology : FingerprintRuleset → Text → Bool
is_technology rules name = is_some (technology_of rules name)

abbrev pub get_category : ℕ → List (ℕ × Text) → Option Text
get_category id [] = none
get_category id ((k, name) ∷ rest) = if id == k then some name else get_category id rest

pub data DetectionSource : Type 0 where
  header cookie html script_src scripts url js ns cname cert implied : DetectionSource

unfoldable pub as_str : DetectionSource → Text
as_str DetectionSource.header = codes "header"
as_str DetectionSource.cookie = codes "cookie"
as_str DetectionSource.html = codes "html"
as_str DetectionSource.script_src = codes "scriptSrc"
as_str DetectionSource.scripts = codes "scripts"
as_str DetectionSource.url = codes "url"
as_str DetectionSource.js = codes "js"
as_str DetectionSource.ns = codes "ns"
as_str DetectionSource.cname = codes "cname"
as_str DetectionSource.cert = codes "cert"
as_str DetectionSource.implied = codes "implied"

unfoldable pub parse_detection_source : Text → Option DetectionSource
parse_detection_source raw =
    if text_eq raw (codes "header")
    then some DetectionSource.header
    else if text_eq raw (codes "cookie")
    then some DetectionSource.cookie
    else if text_eq raw (codes "html")
    then some DetectionSource.html
    else if text_eq raw (codes "scriptSrc")
    then some DetectionSource.script_src
    else if text_eq raw (codes "scripts")
    then some DetectionSource.scripts
    else if text_eq raw (codes "url")
    then some DetectionSource.url
    else if text_eq raw (codes "js")
    then some DetectionSource.js
    else if text_eq raw (codes "ns")
    then some DetectionSource.ns
    else if text_eq raw (codes "cname")
    then some DetectionSource.cname
    else if text_eq raw (codes "cert")
    then some DetectionSource.cert
    else if text_eq raw (codes "implied")
    then some DetectionSource.implied
    else none
