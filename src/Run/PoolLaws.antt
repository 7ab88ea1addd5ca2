-- ===== src/Run/PoolLaws.antt =====
-- The stages of a task together, and what each does to the counters.
use domain_status.Common.{
  ℕ, zero, suc, ◌+◌, ◌%◌, ◌^◌, ◌≡◌, refl, inl, inr, Bool, some, List, [], ◌∷◌, ◌++◌, arith, Text,
  ok, err, if◌then◌else◌, Bool-cases, some_inj, get_elem?,
}
use domain_status.Run.Task.{
  inserted, updated, skipped, Processed, finished, timed_out, cancelled, Schedule, Progress, bump,
  invoke_progress_callback, record_url_failure, handle_cancelled, handle_success, handle_failure,
  handle_timeout, wait_for_rate_limits, handle_processed, process_url_task,
}
use domain_status.Run.TaskLaws.{settled}
use domain_status.Run.Pool.{
  Stage, RunningTask, is_counted, ending, before_count, count_ending, after_callback, remove_at,
  set_stage,
}

-- All stages of a task, with no other one in between.
abbrev pub stages : Text → Bool → Processed → Progress → Progress
stages url is_stored e p =
    after_callback url is_stored e
      (invoke_progress_callback (count_ending e (before_count url is_stored e p)))

handle_processed-stages :
    (url : Text) (s : Schedule) (e : Processed) (p : Progress)
    → s.processed ≡ e
    → handle_processed url s p ≡ stages url s.is_stored e p
unfolding handle_processed handle_cancelled handle_success handle_failure handle_timeout
    after_callback count_ending before_count
handle_processed-stages url s (finished (ok inserted)) p h = rw h refl
handle_processed-stages url s (finished (ok updated)) p h = rw h refl
handle_processed-stages url s (finished (ok skipped)) p h = rw h refl
handle_processed-stages url s (finished (err retries)) p h = rw h refl
handle_processed-stages url s timed_out p h = rw h refl
handle_processed-stages url s cancelled p h = rw h refl

handle_cancelled-stages :
    (url : Text) (b : Bool) (p : Progress) → handle_cancelled url b p ≡ stages url b cancelled p
unfolding handle_cancelled after_callback count_ending before_count
handle_cancelled-stages url b p = refl

-- The stages of a task, one after the other, do what process_url_task does.
pub process_url_task-stages :
    (url : Text) (s : Schedule) (p : Progress)
    → process_url_task url s p ≡ stages url s.is_stored (ending s) p
unfolding process_url_task ending
process_url_task-stages url s p =
    let given_up = handle_cancelled-stages url s.is_stored p in
    elim (Bool-cases s.cancelled_at_start) [
      | inl a ↦ rw (a, if◌then◌else◌) given_up
      | inr a ↦ elim (Bool-cases (wait_for_rate_limits s.request s.host)) [
        | inr b ↦ rw (a, if◌then◌else◌) (rw (b, if◌then◌else◌) given_up)
        | inl b ↦ elim (Bool-cases s.cancelled_before_request) [
          | inl c ↦ rw (a, if◌then◌else◌) (rw (b, if◌then◌else◌) (rw (c, if◌then◌else◌) given_up))
          | inr c ↦
              rw (a, if◌then◌else◌)
                (rw (b, if◌then◌else◌)
                  (rw (c, if◌then◌else◌) (handle_processed-stages url s s.processed p refl)))
        ]
      ]
    ]

-- The sum of the counters.
abbrev pub sum : Progress → ℕ
sum p = p.successful + p.failed + p.skipped

pub sum-before_count :
    (url : Text) (b : Bool) (e : Processed) (p : Progress) → sum (before_count url b e p) ≡ sum p
unfolding before_count record_url_failure
sum-before_count url b (finished r) p = refl
sum-before_count url b timed_out p = refl
sum-before_count url b cancelled p = ground arith

pub settled-count_ending :
    (e : Processed) (p : Progress) → settled (count_ending e p) ≡ (settled p + 1) % 2 ^ 64
unfolding count_ending bump
settled-count_ending (finished (ok inserted)) p = omega arith
settled-count_ending (finished (ok updated)) p = omega arith
settled-count_ending (finished (ok skipped)) p = omega arith
settled-count_ending (finished (err retries)) p = omega arith
settled-count_ending timed_out p = omega arith
settled-count_ending cancelled p = omega arith

pub sum-invoke_progress_callback : (p : Progress) → sum (invoke_progress_callback p) ≡ sum p
unfolding invoke_progress_callback
sum-invoke_progress_callback p = ground arith

pub sum-after_callback :
    (url : Text) (b : Bool) (e : Processed) (p : Progress) → sum (after_callback url b e p) ≡ sum p
unfolding after_callback record_url_failure
sum-after_callback url b (finished (ok outcome)) p = refl
sum-after_callback url b (finished (err retries)) p = ground arith
sum-after_callback url b timed_out p = ground arith
sum-after_callback url b cancelled p = refl

abbrev pub open_count : Stage → ℕ
open_count stage = if is_counted stage then 0 else 1

-- The tasks whose URL is not counted yet.
abbrev pub uncounted : List RunningTask → ℕ
uncounted [] = 0
uncounted (x ∷ xs) = open_count x.stage + uncounted xs

pub uncounted-append :
    (xs ys : List RunningTask) → uncounted (xs ++ ys) ≡ uncounted xs + uncounted ys
uncounted-append [] ys = omega arith
uncounted-append (x ∷ xs) ys = omega (arith, uncounted-append xs ys)

pub uncounted-remove_at :
    (i : ℕ) (xs : List RunningTask) (x : RunningTask)
    → get_elem? xs i ≡ some x
    → uncounted (remove_at i xs) + open_count x.stage ≡ uncounted xs
uncounted-remove_at i [] x h = absurd (ground arith)
uncounted-remove_at zero (y ∷ xs) x h = rw (some_inj h) (omega arith)
uncounted-remove_at (suc i) (y ∷ xs) x h = omega (arith, uncounted-remove_at i xs x h)

pub uncounted-set_stage :
    (i : ℕ) (stage : Stage) (xs : List RunningTask) (x : RunningTask)
    → get_elem? xs i ≡ some x
    → uncounted (set_stage i stage xs) + open_count x.stage ≡ uncounted xs + open_count stage
uncounted-set_stage i stage [] x h = absurd (ground arith)
uncounted-set_stage zero stage (y ∷ xs) x h = rw (some_inj h) (omega arith)
uncounted-set_stage (suc i) stage (y ∷ xs) x h = omega (arith, uncounted-set_stage i stage xs x h)
