-- ===== src/Run/TaskLaws.antt =====
-- What process_url_task does to the counters, the callback and the failure rows.
use domain_status.Common.{
  ℕ, ◌+◌, ◌%◌, ◌^◌, ◌≡◌, refl, ◌⊎◌, inl, inr, Bool, [], ◌∷◌, ◌++◌, arith, Text, ok, err,
  if◌then◌else◌, Bool-cases,
}
use domain_status.Run.Task.{
  UrlProcessOutcome, inserted, updated, skipped, Processed, finished, timed_out, cancelled,
  Schedule, scan_cancelled, process_url_timeout, url_failed, Progress, Report, FailureRow, bump,
  invoke_progress_callback, record_url_failure, handle_cancelled, handle_success, handle_failure,
  handle_timeout, wait_for_rate_limits, handle_processed, process_url_task,
}

-- The finished URLs, of the three kinds.
abbrev pub settled : Progress → ℕ
settled p = (p.successful + p.failed + p.skipped) % 2 ^ 64

abbrev snapshot : Progress → Report
snapshot p = record {
  successful = p.successful;
  failed = p.failed;
  skipped = p.skipped;
  total = p.total;
}

-- What the handling of `url` did to the shared state: the URL is counted once; the callback, if
-- there is one, is told the new counters once; and a failure, unlike the other outcomes, is
-- written as one row of that URL, if the database takes it.
pub record Accounted (url : Text) (is_stored : Bool) (p q : Progress) : Type 0 where
  pub once : settled q ≡ (settled p + 1) % 2 ^ 64
  pub told : q.reports ≡ (if p.has_callback then p.reports ++ snapshot q ∷ [] else p.reports)
  pub written :
      ((q.failed ≡ p.failed) × (q.rows ≡ p.rows))
      ⊎ ((q.failed ≡ bump p.failed)
          × ((row : FailureRow) × (row.url ≡ url)
              × (q.rows ≡ (if is_stored then p.rows ++ row ∷ [] else p.rows))))
  pub callback : q.has_callback ≡ p.has_callback

handle_cancelled-Accounted :
    (url : Text) (is_stored : Bool) (p : Progress)
    → Accounted url is_stored p (handle_cancelled url is_stored p)
unfolding handle_cancelled bump invoke_progress_callback record_url_failure
handle_cancelled-Accounted url b p = record {
  once = ground arith;
  told = ground arith;
  written = inr (
    ground arith,
    (record { url = url; kind = scan_cancelled; retries = 0 }, refl, ground arith),
  );
  callback = ground arith;
}

told_success-Accounted :
    (url : Text) (is_stored : Bool) (outcome : UrlProcessOutcome) (p : Progress)
    → Accounted url is_stored p (handle_success outcome p)
unfolding handle_success bump invoke_progress_callback
told_success-Accounted url b inserted p = record {
  once = ground arith;
  told = ground arith;
  written = inl (ground arith, ground arith);
  callback = ground arith;
}
told_success-Accounted url b updated p = record {
  once = ground arith;
  told = ground arith;
  written = inl (ground arith, ground arith);
  callback = ground arith;
}
told_success-Accounted url b skipped p = record {
  once = ground arith;
  told = ground arith;
  written = inl (ground arith, ground arith);
  callback = ground arith;
}

handle_failure-Accounted :
    (url : Text) (retries : ℕ) (is_stored : Bool) (p : Progress)
    → Accounted url is_stored p (handle_failure url retries is_stored p)
unfolding handle_failure bump invoke_progress_callback record_url_failure
handle_failure-Accounted url n b p = record {
  once = ground arith;
  told = ground arith;
  written =
      inr
        (ground arith, (record { url = url; kind = url_failed; retries = n }, refl, ground arith));
  callback = ground arith;
}

handle_timeout-Accounted :
    (url : Text) (is_stored : Bool) (p : Progress)
    → Accounted url is_stored p (handle_timeout url is_stored p)
unfolding handle_timeout bump invoke_progress_callback record_url_failure
handle_timeout-Accounted url b p = record {
  once = ground arith;
  told = ground arith;
  written = inr (
    ground arith,
    (record { url = url; kind = process_url_timeout; retries = 2 }, refl, ground arith),
  );
  callback = ground arith;
}

handle_processed-Accounted :
    (url : Text) (s : Schedule) (processed : Processed) (p : Progress)
    → s.processed ≡ processed
    → Accounted url s.is_stored p (handle_processed url s p)
unfolding handle_processed
handle_processed-Accounted url s (finished (ok outcome)) p e =
    rw e (told_success-Accounted url s.is_stored outcome p)
handle_processed-Accounted url s (finished (err retries)) p e =
    rw e (handle_failure-Accounted url retries s.is_stored p)
handle_processed-Accounted url s timed_out p e = rw e (handle_timeout-Accounted url s.is_stored p)
handle_processed-Accounted url s cancelled p e = rw e (handle_cancelled-Accounted url s.is_stored p)

-- However a task ends (cancelled at one of four points, timed out, failed or finished), its URL is
-- counted exactly once, the callback is told the new counters once, and a failure row of the URL
-- is written exactly where the URL is counted as failed and the database takes the row.
pub process_url_task-Accounted :
    (url : Text) (s : Schedule) (p : Progress)
    → Accounted url s.is_stored p (process_url_task url s p)
unfolding process_url_task
process_url_task-Accounted url s p =
    let given_up = handle_cancelled-Accounted url s.is_stored p in
    elim (Bool-cases s.cancelled_at_start) [
      | inl a ↦ rw (a, if◌then◌else◌) given_up
      | inr a ↦ elim (Bool-cases (wait_for_rate_limits s.request s.host)) [
        | inr b ↦ rw (a, if◌then◌else◌) (rw (b, if◌then◌else◌) given_up)
        | inl b ↦ elim (Bool-cases s.cancelled_before_request) [
          | inl c ↦ rw (a, if◌then◌else◌) (rw (b, if◌then◌else◌) (rw (c, if◌then◌else◌) given_up))
          | inr c ↦
              rw (a, if◌then◌else◌)
                (rw (b, if◌then◌else◌)
                  (rw (c, if◌then◌else◌) (handle_processed-Accounted url s s.processed p refl)))
        ]
      ]
    ]
