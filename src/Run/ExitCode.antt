-- ===== src/Run/ExitCode.antt =====
-- evaluate_exit_code of src/cli.rs, with the codes of src/exit_codes.rs.
use domain_status.Common.{ℕ, ◌<◌, ◌≡◌, Bool, false, ltb, ◌==◌, if◌then◌else◌}

-- What the percentage uses of `f64`, with one fact of IEEE 754: no percentage of zero failures is
-- above a threshold.
pub record Percentages : Type 1 where
  pub F64 : Type 0
  pub of_nat : ℕ → F64
  pub div : F64 → F64 → F64
  pub mul : F64 → F64 → F64
  pub gt : F64 → F64 → Bool
  pub zero-gt :
      (total pct : ℕ)
      → 0 < total
      → gt (mul (div (of_nat 0) (of_nat total)) (of_nat 100)) (of_nat pct) ≡ false

pub data FailOn : Type 0 where
  never any_failure pct_greater_than : FailOn

-- The counts of a `ScanReport`.
pub record ScanReport : Type 0 where
  pub total_urls : ℕ
  pub failed : ℕ

abbrev pub exit_success : ℕ
exit_success = 0

abbrev pub exit_policy_failure : ℕ
exit_policy_failure = 2

abbrev pub exit_no_urls_pct : ℕ
exit_no_urls_pct = 3

module _ (f : Percentages) where
  unfoldable pub evaluate_exit_code : FailOn → ℕ → ScanReport → ℕ
  evaluate_exit_code never pct_threshold report = exit_success
  evaluate_exit_code any_failure pct_threshold report =
      if ltb 0 report.failed then exit_policy_failure else exit_success
  evaluate_exit_code pct_greater_than pct_threshold report =
      if report.total_urls == 0
      then exit_no_urls_pct
      else (let failure_pct =
            f.mul (f.div (f.of_nat report.failed) (f.of_nat report.total_urls)) (f.of_nat 100) in
          if f.gt failure_pct (f.of_nat pct_threshold) then exit_policy_failure else exit_success)
