-- ===== src/Config/Command.antt =====
-- src/cli.rs: the configuration of a scan command, whose arguments clap has parsed. `set_by_user` says
-- of an argument whether its value came from the command line or the environment.
use domain_status.Common.{
  ℕ, Bool, false, ◌||◌, Option, none, some, List, [], ◌∷◌, ◌++◌, Text, codes, if◌then◌else◌, filter,
}
use domain_status.Run.ExitCode.{FailOn}
use domain_status.Config.Types.{LogLevel, LevelFilter, LogFormat, Config}
use domain_status.Config.Merge.{FileConfig, merge_file_and_cli}

-- The fields of `ScanCommand` that make up a configuration; `verbosity` is its level filter.
pub record ScanCommand : Type 0 where
  pub file : Text
  pub db_path : Text
  pub timeout_seconds : ℕ
  pub max_concurrency : ℕ
  pub rate_limit_rps : ℕ
  pub no_whois : Bool
  pub geoip : Option Text
  pub scan_external_scripts : Bool
  pub fail_on : FailOn
  pub verbosity : LevelFilter
  pub log_level : LogLevel
  pub log_format : LogFormat
  pub log_file : Text
  pub fail_on_pct_threshold : ℕ
  pub user_agent : Text
  pub fingerprints : Option Text
  pub allow_degraded_fingerprints : Bool
  pub status_port : Option ℕ
  pub cache_dir : Option Text
  pub drain_timeout_secs : ℕ
  pub enable_whois : Bool

abbrev pub unless_info : LevelFilter → Option LevelFilter
unless_info LevelFilter.info = none
unless_info LevelFilter.off = some LevelFilter.off
unless_info LevelFilter.error = some LevelFilter.error
unless_info LevelFilter.warn = some LevelFilter.warn
unless_info LevelFilter.debug = some LevelFilter.debug
unless_info LevelFilter.trace = some LevelFilter.trace

unfoldable pub config_from_scan_command : {P O : Type 0} → ScanCommand → Config P O
config_from_scan_command cli = record {
  file = cli.file;
  log_level = cli.log_level;
  log_level_filter_override = unless_info cli.verbosity;
  log_format = cli.log_format;
  db_path = cli.db_path;
  max_concurrency = cli.max_concurrency;
  timeout_seconds = cli.timeout_seconds;
  user_agent = cli.user_agent;
  rate_limit_rps = cli.rate_limit_rps;
  fingerprints = cli.fingerprints;
  geoip = cli.geoip;
  status_port = cli.status_port;
  enable_whois = if cli.no_whois then false else cli.enable_whois;
  cache_dir = cli.cache_dir;
  scan_external_scripts = cli.scan_external_scripts;
  fail_on = cli.fail_on;
  fail_on_pct_threshold = cli.fail_on_pct_threshold;
  log_file = some cli.log_file;
  progress_callback = none;
  dependency_overrides = none;
  allow_localhost_for_tests = false;
  drain_timeout_secs = cli.drain_timeout_secs;
  allow_degraded_fingerprints = cli.allow_degraded_fingerprints;
}

abbrev pub scan_config_arg_ids : List Text
scan_config_arg_ids =
    codes "file"
    ∷ codes "log_level"
    ∷ codes "log_format"
    ∷ codes "db_path"
    ∷ codes "max_concurrency"
    ∷ codes "timeout_seconds"
    ∷ codes "user_agent"
    ∷ codes "rate_limit_rps"
    ∷ codes "fingerprints"
    ∷ codes "geoip"
    ∷ codes "status_port"
    ∷ codes "enable_whois"
    ∷ codes "no_whois"
    ∷ codes "cache_dir"
    ∷ codes "scan_external_scripts"
    ∷ codes "fail_on"
    ∷ codes "fail_on_pct_threshold"
    ∷ codes "log_file"
    ∷ codes "drain_timeout_secs"
    ∷ []

unfoldable pub get_explicit_config_keys : (Text → Bool) → List Text
get_explicit_config_keys set_by_user =
    filter set_by_user scan_config_arg_ids
    ++ (if set_by_user (codes "verbose") || set_by_user (codes "quiet")
        then codes "log_level_filter_override" ∷ []
        else [])

abbrev explicit_keys : Option (Text → Bool) → Option (List Text)
explicit_keys none = none
explicit_keys (some set_by_user) = some (get_explicit_config_keys set_by_user)

-- With the file that was loaded, if any, and clap's matches, if there are any.
unfoldable pub build_config_from_scan_command :
    {P O : Type 0} → Option FileConfig → ScanCommand → Option (Text → Bool) → Config P O
build_config_from_scan_command file cmd matches =
    merge_file_and_cli file (config_from_scan_command cmd) (explicit_keys matches)
