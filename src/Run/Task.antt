-- ===== src/Run/Task.antt =====
-- process_url_task and its handlers, src/run/task.rs. What the runtime decides, which the code
-- awaits, is a value of `Schedule`; the database and the callback are logs in the state.
use domain_status.Common.{
  ℕ, ◌+◌, ◌-◌, ◌%◌, ◌^◌, Bool, true, false, Option, none, some, List, [], ◌∷◌, ◌++◌, Text, Result,
  ok, err, if◌then◌else◌,
}
use domain_status.Retry.Backoff.{retry_max_attempts}

pub data UrlProcessOutcome : Type 0 where
  inserted updated skipped : UrlProcessOutcome

-- A `select!` of a limiter and the cancellation.
pub data Race : Type 0 where
  admitted interrupted : Race

-- A `select!` of process_url under its timeout and the cancellation; a failure has the number of
-- retries.
pub data Processed : Type 0 where
  finished : Result UrlProcessOutcome ℕ → Processed
  timed_out cancelled : Processed

-- `request` and `host` are the limiters of the task, if it has any. `is_stored` tells whether the
-- database takes a failure row.
pub record Schedule : Type 0 where
  pub cancelled_at_start : Bool
  pub request : Option Race
  pub host : Option Race
  pub cancelled_before_request : Bool
  pub processed : Processed
  pub is_stored : Bool

pub data FailureKind : Type 0 where
  scan_cancelled process_url_timeout url_failed : FailureKind

-- A row of `url_failures`.
pub record FailureRow : Type 0 where
  pub url : Text
  pub kind : FailureKind
  pub retries : ℕ

-- What the progress callback is told.
pub record Report : Type 0 where
  pub successful : ℕ
  pub failed : ℕ
  pub skipped : ℕ
  pub total : ℕ

-- The counters that the tasks share, the rows that they wrote, the calls of the callback, and the
-- two error counters that the handlers touch.
pub record Progress : Type 0 where
  pub successful : ℕ
  pub failed : ℕ
  pub skipped : ℕ
  pub total : ℕ
  pub has_callback : Bool
  pub reports : List Report
  pub rows : List FailureRow
  pub cancelled_errors : ℕ
  pub timeout_errors : ℕ

-- `fetch_add(1)` of an `AtomicUsize`, which wraps.
unfoldable pub bump : ℕ → ℕ
bump n = (n + 1) % 2 ^ 64

unfoldable pub invoke_progress_callback : Progress → Progress
invoke_progress_callback p =
    if p.has_callback
    then record p {
      reports =
          p.reports
          ++ record {
            successful = p.successful;
            failed = p.failed;
            skipped = p.skipped;
            total = p.total;
          }
            ∷ [];
    }
    else p

-- `record_url_failure`: an insert that fails is logged only.
unfoldable pub record_url_failure : Bool → FailureRow → Progress → Progress
record_url_failure is_stored row p = if is_stored then record p { rows = p.rows ++ row ∷ [] } else p

abbrev fail_one : Progress → Progress
fail_one p = record p { failed = bump p.failed }

unfoldable pub handle_cancelled : Text → Bool → Progress → Progress
unfolding bump invoke_progress_callback record_url_failure
handle_cancelled url is_stored p =
    let row : FailureRow = record { url = url; kind = scan_cancelled; retries = 0 } in
    let counted = fail_one (record_url_failure is_stored row p) in
    let told = invoke_progress_callback counted in
    record told { cancelled_errors = bump told.cancelled_errors }

unfoldable pub handle_success : UrlProcessOutcome → Progress → Progress
unfolding bump invoke_progress_callback
handle_success inserted p = invoke_progress_callback (record p { successful = bump p.successful })
handle_success updated p = invoke_progress_callback (record p { skipped = bump p.skipped })
handle_success skipped p = invoke_progress_callback (record p { skipped = bump p.skipped })

unfoldable pub handle_failure : Text → ℕ → Bool → Progress → Progress
unfolding bump invoke_progress_callback record_url_failure
handle_failure url retries is_stored p =
    let row : FailureRow = record { url = url; kind = url_failed; retries = retries } in
    record_url_failure is_stored row (invoke_progress_callback (fail_one p))

unfoldable pub handle_timeout : Text → Bool → Progress → Progress
unfolding bump invoke_progress_callback record_url_failure
handle_timeout url is_stored p =
    let row : FailureRow = record {
      url = url;
      kind = process_url_timeout;
      retries = retry_max_attempts - 1;
    } in
    let stored = record_url_failure is_stored row (invoke_progress_callback (fail_one p)) in
    record stored { timeout_errors = bump stored.timeout_errors }

abbrev passes : Option Race → Bool
passes none = true
passes (some admitted) = true
passes (some interrupted) = false

-- `wait_for_rate_limits`: the global limiter, then that of the host.
unfoldable pub wait_for_rate_limits : Option Race → Option Race → Bool
wait_for_rate_limits request host = if passes request then passes host else false

-- The `match` on what process_url came to.
unfoldable pub handle_processed : Text → Schedule → Progress → Progress
unfolding handle_cancelled handle_success handle_failure handle_timeout
handle_processed url s p = elim s.processed [
  | finished r ↦ elim r [
    | ok outcome ↦ handle_success outcome p
    | err retries ↦ handle_failure url retries s.is_stored p
  ]
  | timed_out ↦ handle_timeout url s.is_stored p
  | cancelled ↦ handle_cancelled url s.is_stored p
]

unfoldable pub process_url_task : Text → Schedule → Progress → Progress
unfolding handle_processed handle_cancelled wait_for_rate_limits
process_url_task url s p =
    if s.cancelled_at_start
    then handle_cancelled url s.is_stored p
    else if wait_for_rate_limits s.request s.host
    then (if s.cancelled_before_request
        then handle_cancelled url s.is_stored p
        else handle_processed url s p)
    else handle_cancelled url s.is_stored p
