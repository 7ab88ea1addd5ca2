-- ===== src/Run/Pool.antt =====
-- The tasks of the pool between their await points: src/run/task.rs and InFlightGuard of
-- src/run/mod.rs. A task runs in stages, since other tasks and the drain go on in between.
use domain_status.Common.{
  ℕ, zero, suc, ◌-◌, Bool, true, false, List, [], ◌∷◌, Text, text_eq, any, ok, err, if◌then◌else◌,
}
use domain_status.Run.Task.{
  inserted, updated, skipped, Processed, finished, timed_out, cancelled, Schedule, scan_cancelled,
  process_url_timeout, url_failed, Progress, FailureRow, bump, record_url_failure,
  wait_for_rate_limits,
}
use domain_status.Retry.Backoff.{retry_max_attempts}

-- Not polled yet; with its URL registered; behind the row of a cancellation; behind the counter;
-- behind the callback.
pub data Stage : Type 0 where
  spawned polled : Stage
  stored counted told : Schedule → Stage

pub record RunningTask : Type 0 where
  pub url : Text
  pub stage : Stage

abbrev pub is_counted : Stage → Bool
is_counted (counted schedule) = true
is_counted (told schedule) = true
is_counted _ = false

-- Which handler the task comes to.
unfoldable pub ending : Schedule → Processed
unfolding wait_for_rate_limits
ending s =
    if s.cancelled_at_start
    then cancelled
    else if wait_for_rate_limits s.request s.host
    then (if s.cancelled_before_request then cancelled else s.processed)
    else cancelled

-- What a handler does before the counter.
unfoldable pub before_count : Text → Bool → Processed → Progress → Progress
unfolding record_url_failure
before_count url is_stored cancelled p =
    record_url_failure is_stored (record { url = url; kind = scan_cancelled; retries = 0 }) p
before_count url is_stored _ p = p

-- The `fetch_add` of a handler.
unfoldable pub count_ending : Processed → Progress → Progress
unfolding bump
count_ending (finished (ok inserted)) p = record p { successful = bump p.successful }
count_ending (finished (ok updated)) p = record p { skipped = bump p.skipped }
count_ending (finished (ok skipped)) p = record p { skipped = bump p.skipped }
count_ending (finished (err retries)) p = record p { failed = bump p.failed }
count_ending timed_out p = record p { failed = bump p.failed }
count_ending cancelled p = record p { failed = bump p.failed }

-- What a handler does behind the callback.
unfoldable pub after_callback : Text → Bool → Processed → Progress → Progress
unfolding bump record_url_failure
after_callback url is_stored (finished (ok outcome)) p = p
after_callback url is_stored (finished (err retries)) p =
    record_url_failure is_stored (record { url = url; kind = url_failed; retries = retries }) p
after_callback url is_stored timed_out p =
    let row : FailureRow = record {
      url = url;
      kind = process_url_timeout;
      retries = retry_max_attempts - 1;
    } in
    let written = record_url_failure is_stored row p in
    record written { timeout_errors = bump written.timeout_errors }
after_callback url is_stored cancelled p = record p { cancelled_errors = bump p.cancelled_errors }

abbrev pub remove_at : ℕ → List RunningTask → List RunningTask
remove_at i [] = []
remove_at zero (x ∷ xs) = xs
remove_at (suc i) (x ∷ xs) = x ∷ remove_at i xs

abbrev pub set_stage : ℕ → Stage → List RunningTask → List RunningTask
set_stage i stage [] = []
set_stage zero stage (x ∷ xs) = record x { stage = stage } ∷ xs
set_stage (suc i) stage (x ∷ xs) = x ∷ set_stage i stage xs

-- `HashSet::insert` and `HashSet::remove`, of `InFlightGuard`.
unfoldable pub register : Text → List Text → List Text
register url set = if any (text_eq url) set then set else url ∷ set

unfoldable pub unregister : Text → List Text → List Text
unregister url [] = []
unregister url (x ∷ set) = let rest = unregister url set in if text_eq url x then rest else x ∷ rest
