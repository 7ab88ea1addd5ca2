-- ===== src/Config/Tests.antt =====
-- A file with a few settings, and a command with two arguments.
use domain_status.Common.{
  ◌≡◌, ◌↔◌, refl, Bool, true, false, ◌||◌, none, some, [], ◌∷◌, Text, codes, text_eq, ok,
}
use domain_status.Run.ExitCode.{FailOn}
use domain_status.Config.Types.{
  LogLevel, LevelFilter, LogFormat, Config, default_user_agent, default_config, validate,
}
use domain_status.Config.Merge.{FileConfig, no_file, merge_file_and_cli}
use domain_status.Config.Command.{
  ScanCommand, config_from_scan_command, get_explicit_config_keys, build_config_from_scan_command,
}
use domain_status.Config.Laws.{FollowsPrecedence, merge_file_and_cli-FollowsPrecedence}
use domain_status.Config.Validity.{IsValidConfig, validate_iff}

abbrev Plain : Type 0
Plain = Config (Unit {0}) (Unit {0})

abbrev file : FileConfig
file = record no_file { max_concurrency = some 7; enable_whois = some true }

abbrev command : ScanCommand
command = record {
  file = codes "urls.txt";
  db_path = codes "./domain_status.db";
  timeout_seconds = 10;
  max_concurrency = 99;
  rate_limit_rps = 15;
  no_whois = false;
  geoip = none;
  scan_external_scripts = false;
  fail_on = FailOn.never;
  verbosity = LevelFilter.info;
  log_level = LogLevel.info;
  log_format = LogFormat.plain;
  log_file = codes "domain_status.log";
  fail_on_pct_threshold = 10;
  user_agent = default_user_agent;
  fingerprints = none;
  allow_degraded_fingerprints = true;
  status_port = none;
  cache_dir = none;
  drain_timeout_secs = 10;
  enable_whois = true;
}

abbrev from_command : Plain
from_command = config_from_scan_command command

merge_file_and_cli-FollowsPrecedence_example :
    FollowsPrecedence
      (some file)
      from_command
      (some (codes "max_concurrency" ∷ []))
      (merge_file_and_cli (some file) from_command (some (codes "max_concurrency" ∷ [])))
merge_file_and_cli-FollowsPrecedence_example =
    merge_file_and_cli-FollowsPrecedence (some file) from_command
      (some (codes "max_concurrency" ∷ []))

validate_iff_example : (validate from_command ≡ ok tt) ↔ IsValidConfig from_command
validate_iff_example = validate_iff from_command

from_command_run : validate from_command ≡ ok tt
unfolding validate config_from_scan_command
from_command_run = refl

-- The flag for a degraded catalog, set by the user, is lost.
abbrev set_flags : Text → Bool
set_flags key =
    text_eq key (codes "allow_degraded_fingerprints") || text_eq key (codes "max_concurrency")

abbrev built : Plain
built = build_config_from_scan_command (some file) command (some set_flags)

built_run :
    (built.max_concurrency ≡ 99)
    × (built.enable_whois ≡ true)
    × (built.allow_degraded_fingerprints ≡ false)
unfolding build_config_from_scan_command merge_file_and_cli config_from_scan_command
    get_explicit_config_keys default_config
built_run = (refl, refl, refl)
