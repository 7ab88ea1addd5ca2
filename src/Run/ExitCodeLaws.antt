-- ===== src/Run/ExitCodeLaws.antt =====
-- The exit codes against the counts of the report.
use domain_status.Common.{
  ℕ, ◌<◌, ◌≡◌, ◌≢◌, ◌↔◌, inl, inr, refl, false, arith, ◌==◌, ==_iff, if◌then◌else◌, Bool-cases,
}
use domain_status.Run.ExitCode.{
  Percentages, FailOn, never, any_failure, pct_greater_than, ScanReport, evaluate_exit_code,
}

module _ (f : Percentages) (pct : ℕ) (r : ScanReport) where
  pct_failed : r.total_urls ≢ 0 → evaluate_exit_code f pct_greater_than pct r ≡ 2 → 0 < r.failed
  unfolding evaluate_exit_code
  pct_failed t e = elim (Bool-cases (r.failed == 0)) [
    | inl z ↦
        let none : r.failed ≡ 0 = (==_iff r.failed 0).0 z in
        let other : (r.total_urls == 0) ≡ false = ground arith in
        let low = f.zero-gt r.total_urls pct (omega (arith, t)) in
        let x = rw none at e in
        let y = rw (other, if◌then◌else◌) at x in
        let w = rw (low, if◌then◌else◌) at y in absurd (ground (arith, w))
    | inr z ↦ ground arith
  ]

  pct_no_urls : (evaluate_exit_code f pct_greater_than pct r ≡ 3) ↔ (r.total_urls ≡ 0)
  unfolding evaluate_exit_code
  pct_no_urls = ground arith

  -- An exit code of 2 is given under a policy only, and only to a scan with a failure; 3 is given
  -- exactly to a scan without URLs under a percentage.
  pub evaluate_exit_code_policy :
      (policy : FailOn)
      → (evaluate_exit_code f policy pct r ≡ 2 → (policy ≢ never) × (0 < r.failed))
        × ((evaluate_exit_code f policy pct r ≡ 3)
            ↔ ((policy ≡ pct_greater_than) × (r.total_urls ≡ 0)))
  evaluate_exit_code_policy never = unfold evaluate_exit_code in ground arith
  evaluate_exit_code_policy any_failure = unfold evaluate_exit_code in ground arith
  evaluate_exit_code_policy pct_greater_than = (
    λ e. (ground arith, pct_failed (λ t. absurd (ground (arith, pct_no_urls, e))) e),
    (λ e. (refl, pct_no_urls.0 e), λ h. pct_no_urls.1 h.1),
  )
