-- ===== src/Config/Laws.antt =====
-- Which settings a scan runs with.
use domain_status.Common.{
  ◌≡◌, refl, ap, Bool, true, false, Option, none, some, List, Text, codes, if◌then◌else◌,
}
use domain_status.Run.ExitCode.{FailOn}
use domain_status.Config.Types.{LogLevel, LogFormat, Config, default_user_agent, default_config}
use domain_status.Config.Merge.{FileConfig, value_or, some_or, overwrite, merge_file_and_cli}

-- The value of the command line if its key is overwritten, else that of the file, else the default.
abbrev pub by_rank {ℓ} : {A : Type ℓ} → Bool → A → Option A → A → A
by_rank true cli file default = cli
by_rank false cli none default = default
by_rank false cli (some a) default = a

-- The same for a setting without a default.
abbrev pub rank_some {ℓ} : {A : Type ℓ} → Bool → Option A → Option A → Option A
rank_some true cli file = cli
rank_some false cli file = file

abbrev pub in_file {ℓ} : {A : Type ℓ} → (FileConfig → Option A) → Option FileConfig → Option A
in_file field none = none
in_file field (some f) = field f

rank_value {ℓ} :
    {A : Type ℓ} (b : Bool) (cli : A) (file : Option A) (default : A)
    → (if b then cli else value_or default file) ≡ by_rank b cli file default
rank_value true cli file default = refl
rank_value false cli none default = refl
rank_value false cli (some a) default = refl

rank_option {ℓ} :
    {A : Type ℓ} (b : Bool) (cli file : Option A)
    → (if b then cli else some_or none file) ≡ rank_some b cli file
rank_option true cli file = refl
rank_option false cli none = refl
rank_option false cli (some a) = refl

module _ {P O : Type 0} where
  -- The documented precedence, setting by setting.
  pub record FollowsPrecedence (f : Option FileConfig) (cli : Config P O)
      (keys : Option (List Text)) (c : Config P O) : Type 0 where
    pub file :
        c.file
        ≡ by_rank
            (overwrite keys (codes "file"))
            cli.file
            (in_file (λ x. x.file) f)
            (codes "urls.txt")
    pub log_level :
        c.log_level
        ≡ by_rank
            (overwrite keys (codes "log_level"))
            cli.log_level
            (in_file (λ x. x.log_level) f)
            LogLevel.info
    pub log_level_filter_override :
        c.log_level_filter_override
        ≡ rank_some
            (overwrite keys (codes "log_level_filter_override"))
            cli.log_level_filter_override
            none
    pub log_format :
        c.log_format
        ≡ by_rank
            (overwrite keys (codes "log_format"))
            cli.log_format
            (in_file (λ x. x.log_format) f)
            LogFormat.plain
    pub db_path :
        c.db_path
        ≡ by_rank
            (overwrite keys (codes "db_path"))
            cli.db_path
            (in_file (λ x. x.db_path) f)
            (codes "./domain_status.db")
    pub max_concurrency :
        c.max_concurrency
        ≡ by_rank
            (overwrite keys (codes "max_concurrency"))
            cli.max_concurrency
            (in_file (λ x. x.max_concurrency) f)
            30
    pub timeout_seconds :
        c.timeout_seconds
        ≡ by_rank
            (overwrite keys (codes "timeout_seconds"))
            cli.timeout_seconds
            (in_file (λ x. x.timeout_seconds) f)
            10
    pub user_agent :
        c.user_agent
        ≡ by_rank
            (overwrite keys (codes "user_agent"))
            cli.user_agent
            (in_file (λ x. x.user_agent) f)
            default_user_agent
    pub rate_limit_rps :
        c.rate_limit_rps
        ≡ by_rank
            (overwrite keys (codes "rate_limit_rps"))
            cli.rate_limit_rps
            (in_file (λ x. x.rate_limit_rps) f)
            15
    pub fingerprints :
        c.fingerprints
        ≡ rank_some
            (overwrite keys (codes "fingerprints"))
            cli.fingerprints
            (in_file (λ x. x.fingerprints) f)
    pub geoip :
        c.geoip ≡ rank_some (overwrite keys (codes "geoip")) cli.geoip (in_file (λ x. x.geoip) f)
    pub status_port :
        c.status_port
        ≡ rank_some
            (overwrite keys (codes "status_port"))
            cli.status_port
            (in_file (λ x. x.status_port) f)
    pub enable_whois : c.enable_whois ≡ (
        if overwrite keys (codes "no_whois")
        then false
        else by_rank
            (overwrite keys (codes "enable_whois"))
            cli.enable_whois
            (in_file (λ x. x.enable_whois) f)
            true)
    pub cache_dir :
        c.cache_dir
        ≡ rank_some
            (overwrite keys (codes "cache_dir"))
            cli.cache_dir
            (in_file (λ x. x.cache_dir) f)
    pub scan_external_scripts :
        c.scan_external_scripts
        ≡ by_rank
            (overwrite keys (codes "scan_external_scripts"))
            cli.scan_external_scripts
            (in_file (λ x. x.scan_external_scripts) f)
            false
    pub fail_on :
        c.fail_on
        ≡ by_rank
            (overwrite keys (codes "fail_on"))
            cli.fail_on
            (in_file (λ x. x.fail_on) f)
            FailOn.never
    pub fail_on_pct_threshold :
        c.fail_on_pct_threshold
        ≡ by_rank
            (overwrite keys (codes "fail_on_pct_threshold"))
            cli.fail_on_pct_threshold
            (in_file (λ x. x.fail_on_pct_threshold) f)
            10
    pub log_file :
        c.log_file
        ≡ rank_some (overwrite keys (codes "log_file")) cli.log_file (in_file (λ x. x.log_file) f)
    pub drain_timeout_secs :
        c.drain_timeout_secs
        ≡ by_rank
            (overwrite keys (codes "drain_timeout_secs"))
            cli.drain_timeout_secs
            (in_file (λ x. x.drain_timeout_secs) f)
            10
    pub progress_callback : c.progress_callback ≡ none
    pub dependency_overrides : c.dependency_overrides ≡ none
    pub allow_localhost_for_tests : c.allow_localhost_for_tests ≡ false
    pub allow_degraded_fingerprints : c.allow_degraded_fingerprints ≡ false

  -- Every setting of a merge is that of the command line if its key is to be overwritten, or no keys
  -- are named, else that of the file, else the default (a file cannot set the override of the log
  -- level's filter, and a merge has no callback and no overrides of dependencies); WHOIS is off if `no_whois` is to be
  -- overwritten, and then whatever the command line says. Whether a degraded fingerprint catalog is
  -- allowed has no key: it is off in every merge, as is the switch for tests.
  pub merge_file_and_cli-FollowsPrecedence :
      (f : Option FileConfig) (cli : Config P O) (keys : Option (List Text))
      → FollowsPrecedence f cli keys (merge_file_and_cli f cli keys)
  unfolding merge_file_and_cli default_config
  merge_file_and_cli-FollowsPrecedence none cli keys = record {
    file = rank_value (overwrite keys (codes "file")) cli.file none (codes "urls.txt");
    log_level = rank_value (overwrite keys (codes "log_level")) cli.log_level none LogLevel.info;
    log_format =
        rank_value (overwrite keys (codes "log_format")) cli.log_format none LogFormat.plain;
    db_path =
        rank_value (overwrite keys (codes "db_path")) cli.db_path none (codes "./domain_status.db");
    max_concurrency =
        rank_value (overwrite keys (codes "max_concurrency")) cli.max_concurrency none 30;
    timeout_seconds =
        rank_value (overwrite keys (codes "timeout_seconds")) cli.timeout_seconds none 10;
    user_agent =
        rank_value (overwrite keys (codes "user_agent")) cli.user_agent none default_user_agent;
    rate_limit_rps =
        rank_value (overwrite keys (codes "rate_limit_rps")) cli.rate_limit_rps none 15;
    fingerprints = rank_option (overwrite keys (codes "fingerprints")) cli.fingerprints none;
    geoip = rank_option (overwrite keys (codes "geoip")) cli.geoip none;
    status_port = rank_option (overwrite keys (codes "status_port")) cli.status_port none;
    cache_dir = rank_option (overwrite keys (codes "cache_dir")) cli.cache_dir none;
    scan_external_scripts =
        rank_value (overwrite keys (codes "scan_external_scripts")) cli.scan_external_scripts none
          false;
    fail_on = rank_value (overwrite keys (codes "fail_on")) cli.fail_on none FailOn.never;
    fail_on_pct_threshold =
        rank_value (overwrite keys (codes "fail_on_pct_threshold")) cli.fail_on_pct_threshold none
          10;
    log_file = rank_option (overwrite keys (codes "log_file")) cli.log_file none;
    drain_timeout_secs =
        rank_value (overwrite keys (codes "drain_timeout_secs")) cli.drain_timeout_secs none 10;
    enable_whois =
        ap (λ (b : Bool). if overwrite keys (codes "no_whois") then false else b)
          (rank_value (overwrite keys (codes "enable_whois")) cli.enable_whois none true);
    log_level_filter_override =
        rank_option (overwrite keys (codes "log_level_filter_override"))
          cli.log_level_filter_override none;
    progress_callback = refl;
    dependency_overrides = refl;
    allow_localhost_for_tests = refl;
    allow_degraded_fingerprints = refl;
  }
  merge_file_and_cli-FollowsPrecedence (some f) cli keys = record {
    file = rank_value (overwrite keys (codes "file")) cli.file f.file (codes "urls.txt");
    log_level =
        rank_value (overwrite keys (codes "log_level")) cli.log_level f.log_level LogLevel.info;
    log_format =
        rank_value (overwrite keys (codes "log_format")) cli.log_format f.log_format
          LogFormat.plain;
    db_path =
        rank_value (overwrite keys (codes "db_path")) cli.db_path f.db_path
          (codes "./domain_status.db");
    max_concurrency =
        rank_value (overwrite keys (codes "max_concurrency")) cli.max_concurrency f.max_concurrency
          30;
    timeout_seconds =
        rank_value (overwrite keys (codes "timeout_seconds")) cli.timeout_seconds f.timeout_seconds
          10;
    user_agent =
        rank_value (overwrite keys (codes "user_agent")) cli.user_agent f.user_agent
          default_user_agent;
    rate_limit_rps =
        rank_value (overwrite keys (codes "rate_limit_rps")) cli.rate_limit_rps f.rate_limit_rps 15;
    fingerprints =
        rank_option (overwrite keys (codes "fingerprints")) cli.fingerprints f.fingerprints;
    geoip = rank_option (overwrite keys (codes "geoip")) cli.geoip f.geoip;
    status_port = rank_option (overwrite keys (codes "status_port")) cli.status_port f.status_port;
    cache_dir = rank_option (overwrite keys (codes "cache_dir")) cli.cache_dir f.cache_dir;
    scan_external_scripts =
        rank_value (overwrite keys (codes "scan_external_scripts")) cli.scan_external_scripts
          f.scan_external_scripts false;
    fail_on = rank_value (overwrite keys (codes "fail_on")) cli.fail_on f.fail_on FailOn.never;
    fail_on_pct_threshold =
        rank_value (overwrite keys (codes "fail_on_pct_threshold")) cli.fail_on_pct_threshold
          f.fail_on_pct_threshold 10;
    log_file = rank_option (overwrite keys (codes "log_file")) cli.log_file f.log_file;
    drain_timeout_secs =
        rank_value (overwrite keys (codes "drain_timeout_secs")) cli.drain_timeout_secs
          f.drain_timeout_secs 10;
    enable_whois =
        ap (λ (b : Bool). if overwrite keys (codes "no_whois") then false else b)
          (rank_value (overwrite keys (codes "enable_whois")) cli.enable_whois f.enable_whois true);
    log_level_filter_override =
        rank_option (overwrite keys (codes "log_level_filter_override"))
          cli.log_level_filter_override none;
    progress_callback = refl;
    dependency_overrides = refl;
    allow_localhost_for_tests = refl;
    allow_degraded_fingerprints = refl;
  }
