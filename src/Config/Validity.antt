-- ===== src/Config/Validity.antt =====
-- Which configurations are accepted.
use domain_status.Common.{◌≤◌, ◌≡◌, ◌↔◌, false, trim, is_empty, arith, ok}
use domain_status.Config.Types.{Config, validate}

module _ {P O : Type 0} where
  -- The settings that `validate` accepts.
  pub record IsValidConfig (c : Config P O) : Type 0 where
    pub concurrency : (1 ≤ c.max_concurrency) × (c.max_concurrency ≤ 500)
    pub rate : c.rate_limit_rps ≤ 100
    pub timeout : 1 ≤ c.timeout_seconds
    pub threshold : c.fail_on_pct_threshold ≤ 100
    pub agent : is_empty (trim c.user_agent) ≡ false

  -- `validate` accepts exactly the configurations with 1 to 500 concurrent requests, at most 100 URLs
  -- per second, a timeout of a second or more, a threshold of at most 100 per cent and a user agent
  -- that is not blank.
  pub validate_iff : (c : Config P O) → (validate c ≡ ok tt) ↔ IsValidConfig c
  unfolding validate
  validate_iff c = (
    λ h. record {
      concurrency = (ground arith, ground arith);
      rate = ground arith;
      timeout = ground arith;
      threshold = ground arith;
      agent = ground arith;
    },
    λ v. ground arith,
  )
