-- ===== src/Retry/Tests.antt =====
-- The retry loops on operations that are written out.
use domain_status.Common.{
  ℕ, zero, suc, ◌*◌, ◌^◌, min, ◌≡◌, refl, ◌↔◌, Bool, true, false, some, [], ◌∷◌, arith, Result, ok,
  err, get_elem?,
}
use domain_status.Retry.Backoff.{next, get_retry_strategy}
use domain_status.Retry.Execute.{Meter, exhausted, execute_with_retry, retry_count}
use domain_status.Retry.ExecuteLaws.{Transient}
use domain_status.Retry.ExecuteTotal.{
  Executed, execute_with_retry_total, execute_with_retry-delay, execute_with_retry_exhausted,
}
use domain_status.Retry.Loops.{with_network_download_retry, with_sqlite_retry, failed, last}
use domain_status.Retry.LoopsLaws.{
  Tries, SqliteTries, with_network_download_retry-Tries, with_sqlite_retry-SqliteTries,
}
use domain_status.Retry.Retriable.{
  ReqwestError, http_request_not_found, categorize_reqwest_error, is_retriable, is_retriable_error,
  other, dns,
}
use domain_status.Retry.RetriableLaws.{ShouldRetry, is_retriable_iff}

loops : Unit {0}
unfolding execute_with_retry next get_retry_strategy retry_count with_network_download_retry
    with_sqlite_retry categorize_reqwest_error is_retriable_error
loops = tt

-- Two failures, then a value.
abbrev third_time : ℕ → Result ℕ ℕ
third_time zero = err 7
third_time (suc zero) = err 8
third_time (suc (suc n)) = ok 42

abbrev never : ℕ → Result ℕ ℕ
never n = err n

abbrev always_retriable : ℕ → Bool
always_retriable e = true

abbrev after_two : Meter
after_two = record {
  attempt_count = 3;
  retries = 2;
  non_retriable_failures = 0;
  slept = 500 ∷ 1000 ∷ [];
}

third_time_run : execute_with_retry third_time always_retriable ≡ some (ok 42, after_two)
unfolding loops
third_time_run = refl

other_runs :
    (with_network_download_retry third_time 2 ≡ (ok 42, 2 ∷ []))
    × (with_network_download_retry never 2 ≡ (err (last 3), 2 ∷ 4 ∷ []))
    × (with_sqlite_retry never always_retriable ≡ (err (failed 3), 50 ∷ 100 ∷ 200 ∷ []))
    × (is_retriable_error (other ∷ dns ∷ []) ≡ true)
unfolding loops
other_runs = (refl, refl, refl, refl)

execute_with_retry_total_example : Executed third_time always_retriable
execute_with_retry_total_example = execute_with_retry_total third_time always_retriable

execute_with_retry-delay_example : get_elem? after_two.slept 1 ≡ some (min (500 * 2 ^ 1) 15000)
execute_with_retry-delay_example =
    execute_with_retry-delay third_time always_retriable (ok 42) after_two 1 third_time_run
      (omega arith)

never-Transient : (i : ℕ) → Transient never always_retriable i
never-Transient i = (i, refl, refl)

execute_with_retry_exhausted_example :
    (e : ℕ) × (m : Meter) × (execute_with_retry never always_retriable
      ≡ some (err (exhausted e), m))
    × (never 3 ≡ err e)
    × (m.attempt_count ≡ 4)
    × (retry_count m ≡ 3)
execute_with_retry_exhausted_example =
    execute_with_retry_exhausted never always_retriable never-Transient

with_network_download_retry-Tries_example :
    Tries third_time 2 1 3
      (with_network_download_retry third_time 2).0
      (with_network_download_retry third_time 2).1
with_network_download_retry-Tries_example = with_network_download_retry-Tries third_time 2

with_sqlite_retry-SqliteTries_example :
    SqliteTries never always_retriable 0
      (with_sqlite_retry never always_retriable).0
      (with_sqlite_retry never always_retriable).1
with_sqlite_retry-SqliteTries_example = with_sqlite_retry-SqliteTries never always_retriable

abbrev not_found : ReqwestError
not_found = record {
  status = some 404;
  is_builder = false;
  is_redirect = false;
  is_status = true;
  is_timeout = false;
  is_request = false;
  is_connect = false;
  is_body = false;
  is_decode = false;
}

is_retriable_iff_example : (is_retriable not_found ≡ true) ↔ ShouldRetry not_found
is_retriable_iff_example = is_retriable_iff not_found

not_found_category : categorize_reqwest_error not_found ≡ http_request_not_found
unfolding loops
not_found_category = refl
