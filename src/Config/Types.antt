-- ===== src/Config/Types.antt =====
-- src/config/types.rs: the configuration, its defaults and its validation. A path is its text. `P` is
-- the type of the progress callbacks and `O` that of the dependency overrides.
use domain_status.Common.{
  ℕ, Bool, true, false, Option, none, Text, codes, trim, is_empty, ltb, ◌==◌, if◌then◌else◌, Result,
  ok, err,
}
use domain_status.Run.ExitCode.{FailOn}

pub data LogLevel : Type 0 where
  error warn info debug trace : LogLevel

-- `log::LevelFilter`.
pub data LevelFilter : Type 0 where
  off error warn info debug trace : LevelFilter

unfoldable pub log_level_filter : LogLevel → LevelFilter
log_level_filter LogLevel.error = LevelFilter.error
log_level_filter LogLevel.warn = LevelFilter.warn
log_level_filter LogLevel.info = LevelFilter.info
log_level_filter LogLevel.debug = LevelFilter.debug
log_level_filter LogLevel.trace = LevelFilter.trace

pub data LogFormat : Type 0 where
  plain json : LogFormat

pub record Config (P O : Type 0) : Type 0 where
  pub file : Text
  pub log_level : LogLevel
  pub log_level_filter_override : Option LevelFilter
  pub log_format : LogFormat
  pub db_path : Text
  pub max_concurrency : ℕ
  pub timeout_seconds : ℕ
  pub user_agent : Text
  pub rate_limit_rps : ℕ
  pub fingerprints : Option Text
  pub geoip : Option Text
  pub status_port : Option ℕ
  pub enable_whois : Bool
  pub cache_dir : Option Text
  pub scan_external_scripts : Bool
  pub fail_on : FailOn
  pub fail_on_pct_threshold : ℕ
  pub log_file : Option Text
  pub progress_callback : Option P
  pub dependency_overrides : Option O
  pub allow_localhost_for_tests : Bool
  pub drain_timeout_secs : ℕ
  pub allow_degraded_fingerprints : Bool

abbrev pub default_user_agent : Text
default_user_agent =
    codes
      "Mozilla/5.0 (Windows NT 10.0; Win64; x64) AppleWebKit/537.36 (KHTML, like Gecko) Chrome/131.0.0.0 Safari/537.36"

-- `Config::default`.
unfoldable pub default_config : {P O : Type 0} → Config P O
default_config = record {
  file = codes "urls.txt";
  log_level = LogLevel.info;
  log_level_filter_override = none;
  log_format = LogFormat.plain;
  db_path = codes "./domain_status.db";
  max_concurrency = 30;
  timeout_seconds = 10;
  user_agent = default_user_agent;
  rate_limit_rps = 15;
  fingerprints = none;
  geoip = none;
  status_port = none;
  enable_whois = true;
  cache_dir = none;
  scan_external_scripts = false;
  fail_on = FailOn.never;
  fail_on_pct_threshold = 10;
  log_file = none;
  progress_callback = none;
  dependency_overrides = none;
  allow_localhost_for_tests = false;
  drain_timeout_secs = 10;
  allow_degraded_fingerprints = false;
}

pub record ConfigValidationError : Type 0 where
  pub field : Text
  pub message : Text

abbrev invalid : Text → Text → Result (Unit {0}) ConfigValidationError
invalid field message = err (record { field = field; message = message })

abbrev pub max_concurrency_limit : ℕ
max_concurrency_limit = 500

abbrev pub max_rate_limit_rps : ℕ
max_rate_limit_rps = 100

unfoldable pub validate : {P O : Type 0} → Config P O → Result (Unit {0}) ConfigValidationError
validate c =
    if c.max_concurrency == 0
    then invalid (codes "max_concurrency") (codes "must be greater than 0")
    else if ltb max_concurrency_limit c.max_concurrency
    then invalid (codes "max_concurrency") (codes "must be <= 500 to prevent resource exhaustion")
    else if ltb max_rate_limit_rps c.rate_limit_rps
    then invalid (codes "rate_limit_rps") (codes "must be <= 100 to prevent overwhelming targets")
    else if c.timeout_seconds == 0
    then invalid (codes "timeout_seconds") (codes "must be greater than 0")
    else if ltb 100 c.fail_on_pct_threshold
    then invalid (codes "fail_on_pct_threshold") (codes "must be between 0 and 100")
    else if is_empty (trim c.user_agent)
    then invalid (codes "user_agent") (codes "cannot be empty")
    else ok tt
