-- ===== src/Run/Scan.antt =====
-- The loop of run_scan and drain_join_set, src/run/mod.rs, as a machine that takes one event at a
-- time: the tasks run between the await points of the loop, in any order.
use domain_status.Common.{
  ℕ, zero, suc, ◌+◌, ◌%◌, ◌^◌, Bool, true, false, not, ◌||◌, Option, none, some, List, [], ◌∷◌,
  ◌++◌, Text, ltb, length, get_elem?, if◌then◌else◌,
}
use domain_status.Security.Url.{UrlCrate}
use domain_status.Run.Task.{
  Schedule, Progress, FailureRow, process_url_timeout, bump, invoke_progress_callback,
}
use domain_status.Run.Pool.{
  Stage, spawned, polled, stored, counted, told, RunningTask, is_counted, ending, before_count,
  count_ending, after_callback, remove_at, set_stage, register, unregister,
}
use domain_status.Run.Lines.{read_line, LineVerdict, crashes, ignored, skips, attempts}

-- `recording` writes the rows of the URLs that the drain deadline has found in the registry. In
-- `aborting` the tasks are aborted: each stops where it is, or runs on up to where it stops.
pub data Phase : Type 0 where
  scanning draining recording aborting finalizing failed_run crashed_run : Phase

-- `running` are the tasks that have not ended, in the order of their start, and `registry` is the set
-- of `in_flight_urls`, without duplicates. `panicked` counts the tasks that panicked and have not
-- been joined. `abandoned` is the snapshot of the registry at the drain deadline, and `unrecorded`
-- what of it is left to be written.
pub record Scan : Type 0 where
  pub phase : Phase
  pub attempted : ℕ
  pub progress : Progress
  pub running : List RunningTask
  pub registry : List Text
  pub panicked : ℕ
  pub consecutive_errors : ℕ
  pub abandoned : List Text
  pub unrecorded : List Text

abbrev pub max_consecutive_errors : ℕ
max_consecutive_errors = 10

-- What `next_line` yields.
pub data LineResult : Type 0 where
  line : Text → LineResult
  end_of_input read_error : LineResult

-- What waiting for the semaphore comes to.
pub data Permit : Type 0 where
  acquired closed interrupted : Permit

-- `advances` runs a task up to its next await point or effect; the schedule is fixed when it
-- starts. A task panics before it has counted its URL (`panics`), or later (`panics_late`, in the
-- callback or behind it).
pub data Event : Type 0 where
  reads : LineResult → Permit → Event
  interrupt : Event
  advances : ℕ → Schedule → Event
  panics panics_late : ℕ → Event
  joins : Event
  all_joined : Event
  deadline : Event
  records : Bool → Event
  aborts : Event

unfoldable pub skip_url : Scan → Scan
unfolding bump invoke_progress_callback
skip_url s = record s {
  attempted = bump s.attempted;
  progress = invoke_progress_callback (record s.progress { skipped = bump s.progress.skipped });
}

-- The semaphore was closed: the URL counts as failed, without a row.
unfoldable pub count_closed : Scan → Scan
unfolding bump
count_closed s = record s {
  attempted = bump s.attempted;
  progress = record s.progress { failed = bump s.progress.failed };
}

unfoldable pub spawn_task : Text → Scan → Scan
unfolding bump
spawn_task url s = record s {
  attempted = bump s.attempted;
  running = s.running ++ record { url = url; stage = spawned } ∷ [];
}

unfoldable pub on_permit : Text → Permit → Scan → Scan
unfolding count_closed spawn_task
on_permit url acquired s = spawn_task url s
on_permit url closed s = count_closed s
on_permit url interrupted s = record s { phase = draining }

unfoldable pub on_verdict : LineVerdict → Permit → Scan → Scan
unfolding on_permit skip_url
on_verdict crashes permit s = record s { phase = crashed_run }
on_verdict ignored permit s = s
on_verdict skips permit s = skip_url s
on_verdict (attempts url) permit s = on_permit url permit s

unfoldable pub on_read_error : Scan → Scan
on_read_error s =
    let errors = s.consecutive_errors + 1 in
    if ltb max_consecutive_errors errors
    then record s { consecutive_errors = errors; phase = failed_run }
    else record s { consecutive_errors = errors }

-- The drain deadline takes the snapshot.
unfoldable pub on_deadline : Scan → Scan
on_deadline s = record s { phase = recording; abandoned = s.registry; unrecorded = s.registry }

-- One round of `record_drain_timeout_failures`; an insert that fails is logged only.
unfoldable pub record_abandoned : Bool → List Text → Scan → Option Scan
record_abandoned is_stored [] s = none
record_abandoned is_stored (url ∷ unrecorded) s =
    let row : FailureRow = record { url = url; kind = process_url_timeout; retries = 0 } in
    some (record s {
      unrecorded = unrecorded;
      progress = record s.progress {
        rows = if is_stored then s.progress.rows ++ row ∷ [] else s.progress.rows;
      };
    })

-- All rows are written: the URLs of the snapshot are counted, and the tasks aborted. A task that has
-- stopped stays in `running`.
unfoldable pub abort_tasks : List Text → Scan → Option Scan
abort_tasks [] s = some (record s {
  phase = aborting;
  progress = record s.progress { failed = (s.progress.failed + length s.abandoned) % 2 ^ 64 };
})
abort_tasks _ s = none

-- A task that ends drops its guard, which takes its URL out of the registry.
abbrev pub leave : ℕ → Text → Scan → Scan
leave i url s = record s { running = remove_at i s.running; registry = unregister url s.registry }

-- What the stage of task `i` does next.
unfoldable pub advance : ℕ → Text → Schedule → Stage → Scan → Scan
unfolding register unregister ending before_count count_ending invoke_progress_callback
    after_callback
advance i url schedule spawned s = record s {
  registry = register url s.registry;
  running = set_stage i polled s.running;
}
advance i url schedule polled s = record s {
  progress = before_count url schedule.is_stored (ending schedule) s.progress;
  running = set_stage i (stored schedule) s.running;
}
advance i url schedule (stored chosen) s = record s {
  progress = count_ending (ending chosen) s.progress;
  running = set_stage i (counted chosen) s.running;
}
advance i url schedule (counted chosen) s = record s {
  progress = invoke_progress_callback s.progress;
  running = set_stage i (told chosen) s.running;
}
advance i url schedule (told chosen) s =
    let left = leave i url s in
    record left { progress = after_callback url chosen.is_stored (ending chosen) s.progress }

abbrev pub advance_found : ℕ → Schedule → Scan → Option RunningTask → Option Scan
advance_found i schedule s none = none
advance_found i schedule s (some task) = some (advance i task.url schedule task.stage s)

unfoldable pub advance_task : ℕ → Schedule → Scan → Option Scan
unfolding advance
advance_task i schedule s = advance_found i schedule s (get_elem? s.running i)

-- A task panics once it is polled, early or late.
abbrev pub panics_at : Bool → Stage → Bool
panics_at late spawned = false
panics_at true stage = is_counted stage
panics_at false stage = not (is_counted stage)

abbrev pub panic_when : Bool → ℕ → Text → Scan → Option Scan
panic_when false i url s = none
panic_when true i url s =
    let left = leave i url s in some (record left { panicked = s.panicked + 1 })

-- The guard of a task that panics is dropped as well.
abbrev pub panic_found : ℕ → Bool → Scan → Option RunningTask → Option Scan
panic_found i late s none = none
panic_found i late s (some task) = panic_when (panics_at late task.stage) i task.url s

unfoldable pub panic_task : ℕ → Bool → Scan → Option Scan
unfolding unregister
panic_task i late s = panic_found i late s (get_elem? s.running i)

-- A task that panicked is joined, and counts as failed.
unfoldable pub join_panicked : ℕ → Scan → Option Scan
unfolding bump
join_panicked zero s = none
join_panicked (suc n) s =
    some
      (record s { panicked = n; progress = record s.progress { failed = bump s.progress.failed } })

-- `join_next` has no task left: the drain is over.
abbrev pub drained : List RunningTask → ℕ → Scan → Option Scan
drained [] zero s = some (record s { phase = finalizing })
drained _ _ s = none

unfoldable pub end_drain : Scan → Option Scan
end_drain s = drained s.running s.panicked s

abbrev pub is_scanning : Phase → Bool
is_scanning scanning = true
is_scanning _ = false

abbrev pub is_draining : Phase → Bool
is_draining draining = true
is_draining _ = false

-- Where tasks run.
abbrev pub is_live : Phase → Bool
is_live scanning = true
is_live draining = true
is_live recording = true
is_live aborting = true
is_live _ = false

abbrev pub is_recording : Phase → Bool
is_recording recording = true
is_recording _ = false

abbrev pub is_aborting : Phase → Bool
is_aborting aborting = true
is_aborting _ = false

-- Where finished tasks are joined.
abbrev pub is_joining : Phase → Bool
is_joining phase = is_scanning phase || is_draining phase

abbrev pub when : Bool → Option Scan → Option Scan
when true o = o
when false o = none

module _ (warns : Bool) (crate : UrlCrate) (allow_localhost : Bool) where
  unfoldable pub on_read : LineResult → Permit → Scan → Scan
  unfolding on_verdict on_read_error
  on_read (line text) permit s =
      on_verdict (read_line warns crate allow_localhost text) permit
        (record s { consecutive_errors = 0 })
  on_read end_of_input permit s = record s { phase = draining }
  on_read read_error permit s = on_read_error s

  -- `none` is an event that cannot happen in the state.
  unfoldable pub step : Event → Scan → Option Scan
  unfolding on_read advance_task panic_task join_panicked end_drain on_deadline record_abandoned
      abort_tasks
  step (reads r permit) s = when (is_scanning s.phase) (some (on_read r permit s))
  step interrupt s = when (is_scanning s.phase) (some (record s { phase = draining }))
  step (advances i schedule) s = when (is_live s.phase) (advance_task i schedule s)
  step (panics i) s = when (is_live s.phase) (panic_task i false s)
  step (panics_late i) s = when (is_live s.phase) (panic_task i true s)
  step joins s = when (is_joining s.phase) (join_panicked s.panicked s)
  step all_joined s = when (is_draining s.phase) (end_drain s)
  step deadline s = when (is_draining s.phase) (some (on_deadline s))
  step (records is_stored) s =
      when (is_recording s.phase) (record_abandoned is_stored s.unrecorded s)
  step aborts s = when (is_recording s.phase) (abort_tasks s.unrecorded s)

  unfoldable pub run_scan : List Event → Scan → Option Scan
  unfolding step
  run_scan [] s = some s
  run_scan (e ∷ events) s = elim (step e s) [ none ↦ none | some s' ↦ run_scan events s' ]

abbrev pub start_scan : ℕ → Bool → Scan
start_scan total has_callback = record {
  phase = scanning;
  attempted = 0;
  progress = record {
    successful = 0;
    failed = 0;
    skipped = 0;
    total = total;
    has_callback = has_callback;
    reports = [];
    rows = [];
    cancelled_errors = 0;
    timeout_errors = 0;
  };
  running = [];
  registry = [];
  panicked = 0;
  consecutive_errors = 0;
  abandoned = [];
  unrecorded = [];
}
