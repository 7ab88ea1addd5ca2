-- ===== src/Config/Merge.antt =====
-- src/config/merge.rs: the overlay of a configuration file, the merge with the command line, and the
-- readers of the file's values. `to_lowercase` is that of `str`.
use domain_status.Common.{
  ℕ, Bool, true, false, Option, none, some, List, [], ◌∷◌, Text, codes, text_eq, trim,
  if◌then◌else◌, has,
}
use domain_status.Run.ExitCode.{FailOn}
use domain_status.Config.Types.{LogLevel, LogFormat, Config, default_config}

pub record FileConfig : Type 0 where
  pub file : Option Text
  pub log_level : Option LogLevel
  pub log_format : Option LogFormat
  pub db_path : Option Text
  pub max_concurrency : Option ℕ
  pub timeout_seconds : Option ℕ
  pub user_agent : Option Text
  pub rate_limit_rps : Option ℕ
  pub fingerprints : Option Text
  pub geoip : Option Text
  pub status_port : Option ℕ
  pub enable_whois : Option Bool
  pub cache_dir : Option Text
  pub scan_external_scripts : Option Bool
  pub fail_on : Option FailOn
  pub fail_on_pct_threshold : Option ℕ
  pub log_file : Option Text
  pub drain_timeout_secs : Option ℕ

-- `FileConfig::default`.
abbrev pub no_file : FileConfig
no_file = record {
  file = none;
  log_level = none;
  log_format = none;
  db_path = none;
  max_concurrency = none;
  timeout_seconds = none;
  user_agent = none;
  rate_limit_rps = none;
  fingerprints = none;
  geoip = none;
  status_port = none;
  enable_whois = none;
  cache_dir = none;
  scan_external_scripts = none;
  fail_on = none;
  fail_on_pct_threshold = none;
  log_file = none;
  drain_timeout_secs = none;
}

-- The value of the file, or the one that was there.
abbrev pub value_or {ℓ} : {A : Type ℓ} → A → Option A → A
value_or a none = a
value_or a (some b) = b

-- A value of the file where there is one, for a setting that may be absent.
abbrev pub some_or {ℓ} : {A : Type ℓ} → Option A → Option A → Option A
some_or a none = a
some_or a (some b) = some b

-- `overwrite`: every key if none is named.
abbrev pub overwrite : Option (List Text) → Text → Bool
overwrite none key = true
overwrite (some keys) key = has key keys

module _ {P O : Type 0} where
  unfoldable pub apply_file_config : Config P O → FileConfig → Config P O
  apply_file_config c f = record c {
    file = value_or c.file f.file;
    db_path = value_or c.db_path f.db_path;
    log_file = some_or c.log_file f.log_file;
    log_level = value_or c.log_level f.log_level;
    log_format = value_or c.log_format f.log_format;
    max_concurrency = value_or c.max_concurrency f.max_concurrency;
    timeout_seconds = value_or c.timeout_seconds f.timeout_seconds;
    drain_timeout_secs = value_or c.drain_timeout_secs f.drain_timeout_secs;
    user_agent = value_or c.user_agent f.user_agent;
    rate_limit_rps = value_or c.rate_limit_rps f.rate_limit_rps;
    fingerprints = some_or c.fingerprints f.fingerprints;
    geoip = some_or c.geoip f.geoip;
    status_port = some_or c.status_port f.status_port;
    enable_whois = value_or c.enable_whois f.enable_whois;
    cache_dir = some_or c.cache_dir f.cache_dir;
    scan_external_scripts = value_or c.scan_external_scripts f.scan_external_scripts;
    fail_on = value_or c.fail_on f.fail_on;
    fail_on_pct_threshold = value_or c.fail_on_pct_threshold f.fail_on_pct_threshold;
  }

  abbrev overlay : Option FileConfig → Config P O → Config P O
  overlay none c = c
  overlay (some f) c = apply_file_config c f

  -- The settings of the command line over those of the file.
  unfoldable pub overwrite_config : Config P O → Config P O → Option (List Text) → Config P O
  overwrite_config c cli keys =
      let whois =
        (if overwrite keys (codes "enable_whois") then cli.enable_whois else c.enable_whois) in
      record c {
        file = if overwrite keys (codes "file") then cli.file else c.file;
        log_level = if overwrite keys (codes "log_level") then cli.log_level else c.log_level;
        log_level_filter_override =
            if overwrite keys (codes "log_level_filter_override")
            then cli.log_level_filter_override
            else c.log_level_filter_override;
        log_format = if overwrite keys (codes "log_format") then cli.log_format else c.log_format;
        db_path = if overwrite keys (codes "db_path") then cli.db_path else c.db_path;
        max_concurrency =
            if overwrite keys (codes "max_concurrency")
            then cli.max_concurrency
            else c.max_concurrency;
        timeout_seconds =
            if overwrite keys (codes "timeout_seconds")
            then cli.timeout_seconds
            else c.timeout_seconds;
        user_agent = if overwrite keys (codes "user_agent") then cli.user_agent else c.user_agent;
        rate_limit_rps =
            if overwrite keys (codes "rate_limit_rps")
            then cli.rate_limit_rps
            else c.rate_limit_rps;
        fingerprints =
            if overwrite keys (codes "fingerprints") then cli.fingerprints else c.fingerprints;
        geoip = if overwrite keys (codes "geoip") then cli.geoip else c.geoip;
        status_port =
            if overwrite keys (codes "status_port") then cli.status_port else c.status_port;
        enable_whois = if overwrite keys (codes "no_whois") then false else whois;
        cache_dir = if overwrite keys (codes "cache_dir") then cli.cache_dir else c.cache_dir;
        scan_external_scripts =
            if overwrite keys (codes "scan_external_scripts")
            then cli.scan_external_scripts
            else c.scan_external_scripts;
        fail_on = if overwrite keys (codes "fail_on") then cli.fail_on else c.fail_on;
        fail_on_pct_threshold =
            if overwrite keys (codes "fail_on_pct_threshold")
            then cli.fail_on_pct_threshold
            else c.fail_on_pct_threshold;
        log_file = if overwrite keys (codes "log_file") then cli.log_file else c.log_file;
        drain_timeout_secs =
            if overwrite keys (codes "drain_timeout_secs")
            then cli.drain_timeout_secs
            else c.drain_timeout_secs;
        progress_callback = none;
        dependency_overrides = none;
        allow_localhost_for_tests = false;
      }

  unfoldable pub merge_file_and_cli :
      Option FileConfig → Config P O → Option (List Text) → Config P O
  unfolding apply_file_config overwrite_config
  merge_file_and_cli file cli keys = overwrite_config (overlay file default_config) cli keys

module _ (to_lowercase : Text → Text) where
  unfoldable pub parse_log_level : Text → Option LogLevel
  parse_log_level s =
      let t = to_lowercase s in
      if text_eq t (codes "error")
      then some LogLevel.error
      else if text_eq t (codes "warn")
      then some LogLevel.warn
      else if text_eq t (codes "info")
      then some LogLevel.info
      else if text_eq t (codes "debug")
      then some LogLevel.debug
      else if text_eq t (codes "trace")
      then some LogLevel.trace
      else none

  unfoldable pub parse_log_format : Text → Option LogFormat
  parse_log_format s =
      let t = to_lowercase s in
      if text_eq t (codes "plain")
      then some LogFormat.plain
      else if text_eq t (codes "json")
      then some LogFormat.json
      else none

  unfoldable pub parse_fail_on : Text → Option FailOn
  parse_fail_on s =
      let t = to_lowercase s in
      if text_eq t (codes "never")
      then some FailOn.never
      else if has t (codes "any-failure" ∷ codes "any_failure" ∷ codes "anyfailure" ∷ [])
      then some FailOn.any_failure
      else if text_eq t (codes "pct>")
      then some FailOn.pct_greater_than
      else none

  unfoldable pub parse_bool : Text → Option Bool
  parse_bool s =
      let t = to_lowercase (trim s) in
      if has t (codes "true" ∷ codes "1" ∷ codes "yes" ∷ codes "on" ∷ [])
      then some true
      else if has t (codes "false" ∷ codes "0" ∷ codes "no" ∷ codes "off" ∷ [])
      then some false
      else none
