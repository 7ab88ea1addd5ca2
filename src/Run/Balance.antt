-- ===== src/Run/Balance.antt =====
-- The counters over one event of the scan in src/run/mod.rs.
use domain_status.Common.{
  ℕ, ◌+◌, ◌%◌, ◌^◌, ◌≡◌, refl, sym, inl, inr, Bool, true, false, Option, none, some, [], ◌∷◌, arith,
  Text, Bool-cases, some_inj, get_elem?, if◌then◌else◌,
}
use domain_status.Run.Task.{Schedule, bump, invoke_progress_callback}
use domain_status.Run.Pool.{Stage, spawned, polled, stored, counted, told, RunningTask, ending}
use domain_status.Run.PoolLaws.{
  sum, sum-before_count, settled-count_ending, sum-invoke_progress_callback, sum-after_callback,
  open_count, uncounted, uncounted-append, uncounted-remove_at, uncounted-set_stage,
}
use domain_status.Run.Lines.{LineVerdict, crashes, ignored, skips, attempts}
use domain_status.Run.Scan.{
  Scan, Permit, acquired, closed, interrupted, skip_url, count_closed, spawn_task, on_permit,
  on_verdict, on_read_error, leave, advance, advance_found, advance_task, panics_at, panic_when,
  panic_found, panic_task,
}

-- Of the URLs attempted, those that are counted, those of tasks that have not counted theirs, and
-- those of tasks that panicked and are still to be joined, modulo the width of the counters;
-- `late` URLs are counted twice.
abbrev pub IsBalanced : ℕ → Scan → Type 0
IsBalanced late s =
    (sum s.progress + uncounted s.running + s.panicked) % 2 ^ 64 ≡ (s.attempted + late) % 2 ^ 64

skip_url-IsBalanced : (l : ℕ) (s : Scan) → IsBalanced l s → IsBalanced l (skip_url s)
unfolding skip_url bump invoke_progress_callback
skip_url-IsBalanced l s b = ground arith

count_closed-IsBalanced : (l : ℕ) (s : Scan) → IsBalanced l s → IsBalanced l (count_closed s)
unfolding count_closed bump
count_closed-IsBalanced l s b = omega (arith, b)

spawn_task-IsBalanced :
    (l : ℕ) (url : Text) (s : Scan) → IsBalanced l s → IsBalanced l (spawn_task url s)
unfolding spawn_task bump
spawn_task-IsBalanced l url s b =
    omega (arith, b, uncounted-append s.running (record { url = url; stage = spawned } ∷ []))

pub on_verdict-IsBalanced :
    (l : ℕ) (v : LineVerdict) (permit : Permit) (s : Scan)
    → IsBalanced l s
    → IsBalanced l (on_verdict v permit s)
unfolding on_verdict on_permit
on_verdict-IsBalanced l crashes permit s b = b
on_verdict-IsBalanced l ignored permit s b = b
on_verdict-IsBalanced l skips permit s b = skip_url-IsBalanced l s b
on_verdict-IsBalanced l (attempts url) acquired s b = spawn_task-IsBalanced l url s b
on_verdict-IsBalanced l (attempts url) closed s b = count_closed-IsBalanced l s b
on_verdict-IsBalanced l (attempts url) interrupted s b = b

pub on_read_error-IsBalanced : (l : ℕ) (s : Scan) → IsBalanced l s → IsBalanced l (on_read_error s)
unfolding on_read_error
on_read_error-IsBalanced l s b = ground arith

advance-IsBalanced :
    (l i : ℕ) (schedule : Schedule) (task : RunningTask) (stage : Stage) (s : Scan)
    → IsBalanced l s
    → get_elem? s.running i ≡ some task
    → task.stage ≡ stage
    → IsBalanced l (advance i task.url schedule stage s)
unfolding advance
advance-IsBalanced l i schedule task spawned s b h e =
    let u = uncounted-set_stage i polled s.running task h in omega (arith, b, rw e at u)
advance-IsBalanced l i schedule task polled s b h e =
    let u = uncounted-set_stage i (stored schedule) s.running task h in
    let c = sum-before_count task.url schedule.is_stored (ending schedule) s.progress in
    omega (arith, b, c, rw e at u)
advance-IsBalanced l i schedule task (stored chosen) s b h e =
    let u = uncounted-set_stage i (counted chosen) s.running task h in
    let c = settled-count_ending (ending chosen) s.progress in omega (arith, b, c, rw e at u)
advance-IsBalanced l i schedule task (counted chosen) s b h e =
    let u = uncounted-set_stage i (told chosen) s.running task h in
    let c = sum-invoke_progress_callback s.progress in omega (arith, b, c, rw e at u)
advance-IsBalanced l i schedule task (told chosen) s b h e =
    let u = uncounted-remove_at i s.running task h in
    let c = sum-after_callback task.url chosen.is_stored (ending chosen) s.progress in
    omega (arith, b, c, rw e at u)

pub advance_task-IsBalanced :
    (l i : ℕ) (schedule : Schedule) (s s' : Scan)
    → IsBalanced l s
    → advance_task i schedule s ≡ some s'
    → IsBalanced l s'
unfolding advance_task
advance_task-IsBalanced l i schedule s s' b e = found (get_elem? s.running i) refl e
  where
    found :
        (o : Option RunningTask)
        → get_elem? s.running i ≡ o
        → advance_found i schedule s o ≡ some s'
        → IsBalanced l s'
    found none h f = absurd (ground arith)
    found (some task) h f =
        rw (sym (some_inj f)) (advance-IsBalanced l i schedule task task.stage s b h refl)

-- How often a URL is counted twice by a panic.
abbrev pub twice : Bool → ℕ
twice late = if late then 1 else 0

panicked-IsBalanced :
    (l i : ℕ) (late : Bool) (task : RunningTask) (stage : Stage) (s : Scan)
    → IsBalanced l s
    → get_elem? s.running i ≡ some task
    → task.stage ≡ stage
    → panics_at late stage ≡ true
    → IsBalanced (l + twice late) (record (leave i task.url s) { panicked = s.panicked + 1 })
panicked-IsBalanced l i late task stage s b h e p =
    let u = uncounted-remove_at i s.running task h in
    let c : open_count stage + twice late ≡ 1 = panics_at-open_count late stage p in
    omega (arith, b, c, rw e at u)
  where
    panics_at-open_count :
        (late : Bool) (stage : Stage)
        → panics_at late stage ≡ true
        → open_count stage + twice late ≡ 1
    panics_at-open_count late spawned p = absurd (ground arith)
    panics_at-open_count true polled p = absurd (ground arith)
    panics_at-open_count true (stored s) p = absurd (ground arith)
    panics_at-open_count true (counted s) p = refl
    panics_at-open_count true (told s) p = refl
    panics_at-open_count false polled p = refl
    panics_at-open_count false (stored s) p = refl
    panics_at-open_count false (counted s) p = absurd (ground arith)
    panics_at-open_count false (told s) p = absurd (ground arith)

pub panic_task-IsBalanced :
    (l i : ℕ) (late : Bool) (s s' : Scan)
    → IsBalanced l s
    → panic_task i late s ≡ some s'
    → IsBalanced (l + twice late) s'
unfolding panic_task
panic_task-IsBalanced l i late s s' b e = found (get_elem? s.running i) refl e
  where
    found :
        (o : Option RunningTask)
        → get_elem? s.running i ≡ o
        → panic_found i late s o ≡ some s'
        → IsBalanced (l + twice late) s'
    found none h f = absurd (ground arith)
    found (some task) h f = elim (Bool-cases (panics_at late task.stage)) [
      | inl p ↦
          rw (sym (some_inj (rw (p, panic_when) at f)))
            (panicked-IsBalanced l i late task task.stage s b h refl p)
      | inr p ↦ let g = rw (p, panic_when) at f in absurd (ground arith)
    ]
