-- ===== src/Run/ScanLaws.antt =====
-- The counters of a scan over its events: run_scan and drain_join_set.
use domain_status.Common.{
  ℕ, zero, suc, ◌+◌, ◌%◌, ◌^◌, ◌≡◌, refl, sym, ap, ◌∙◌, ◌⊎◌, inl, inr, Bool, true, false, Option,
  some, List, [], ◌∷◌, arith, Text, Option-cases, some_inj, length,
}
use mathlib.Core.Path.{subst}
use domain_status.Security.Url.{UrlCrate}
use domain_status.Run.Task.{bump}
use domain_status.Run.TaskLaws.{settled}
use domain_status.Run.Pool.{RunningTask}
use domain_status.Run.PoolLaws.{uncounted}
use domain_status.Run.Lines.{read_line, LineVerdict, crashes, ignored, skips, attempts}
use domain_status.Run.Scan.{
  finalizing, aborting, is_aborting, Phase, Scan, LineResult, line, end_of_input, read_error,
  Permit, Event, reads, interrupt, advances, panics, panics_late, joins, all_joined, deadline,
  records, aborts, on_deadline, record_abandoned, abort_tasks, join_panicked, end_drain, drained,
  when, is_scanning, is_draining, is_recording, on_read, step, run_scan, start_scan, on_verdict,
  on_permit, on_read_error, skip_url, count_closed, spawn_task, acquired, closed, interrupted,
}
use domain_status.Run.Keeps.{
  Keeps, record_abandoned-Keeps, join_panicked-Keeps, advance_task-Keeps, panic_task-Keeps,
}
use domain_status.Run.Balance.{
  IsBalanced, on_verdict-IsBalanced, on_read_error-IsBalanced, advance_task-IsBalanced,
  panic_task-IsBalanced,
}

join_panicked-IsBalanced :
    (l n : ℕ) (s s' : Scan)
    → s.panicked ≡ n
    → IsBalanced l s
    → join_panicked n s ≡ some s'
    → IsBalanced l s'
unfolding join_panicked bump
join_panicked-IsBalanced l zero s s' q b e = absurd (ground arith)
join_panicked-IsBalanced l (suc n) s s' q b e = rw (sym (some_inj e)) (omega (arith, q, b))

when-some : (b : Bool) (o : Option Scan) {s : Scan} → when b o ≡ some s → (b ≡ true) × (o ≡ some s)
when-some true o e = (refl, e)
when-some false o e = absurd (ground arith)

drained-same :
    (tasks : List RunningTask) (n : ℕ) (s s' : Scan)
    → drained tasks n s ≡ some s'
    → (tasks ≡ []) × (n ≡ 0) × (s' ≡ record s { phase = finalizing })
drained-same [] zero s s' e = (refl, refl, sym (some_inj e))
drained-same [] (suc n) s s' e = absurd (ground arith)
drained-same (x ∷ tasks) n s s' e = absurd (ground arith)

end_drain-same :
    (s s' : Scan)
    → end_drain s ≡ some s'
    → (s.running ≡ []) × (s.panicked ≡ 0) × (s' ≡ record s { phase = finalizing })
unfolding end_drain
end_drain-same s s' e = drained-same s.running s.panicked s s' e

record_abandoned-IsBalanced :
    (l : ℕ) (is_stored : Bool) (urls : List Text) (s s' : Scan)
    → IsBalanced l s
    → record_abandoned is_stored urls s ≡ some s'
    → IsBalanced l s'
unfolding record_abandoned
record_abandoned-IsBalanced l is_stored [] s s' b e = absurd (ground arith)
record_abandoned-IsBalanced l is_stored (url ∷ urls) s s' b e = rw (sym (some_inj e)) b

-- The abort counts the URLs of the snapshot.
abort_tasks-Aborted :
    (l : ℕ) (urls : List Text) (s s' : Scan)
    → IsBalanced l s
    → abort_tasks urls s ≡ some s'
    → (s'.phase ≡ aborting) × IsBalanced (l + length s'.abandoned) s'
unfolding abort_tasks
abort_tasks-Aborted l [] s s' b e = rw (sym (some_inj e)) (refl, omega (arith, b))
abort_tasks-Aborted l (url ∷ urls) s s' b e = absurd (ground arith)

when-IsBalanced :
    (l : ℕ) (b : Bool) (t s : Scan) → when b (some t) ≡ some s → IsBalanced l t → IsBalanced l s
when-IsBalanced l b t s e h = rw (sym (some_inj (when-some b (some t) e).1)) h

plus_zero : (l : ℕ) (s : Scan) → IsBalanced l s → IsBalanced (l + 0) s
plus_zero l s b = omega (arith, b)

-- The panics behind the counter.
abbrev pub late_panics : List Event → ℕ
late_panics [] = 0
late_panics (panics_late i ∷ events) = suc (late_panics events)
late_panics (e ∷ events) = late_panics events

-- A scan is balanced, and once it is aborted, but for the URLs of the snapshot.
abbrev IsAccounted : ℕ → Scan → Type 0
IsAccounted l s =
    ((is_aborting s.phase ≡ false) × IsBalanced l s)
    ⊎ ((s.phase ≡ aborting) × IsBalanced (l + length s.abandoned) s)

kept-IsAccounted :
    (l k : ℕ) (s s' : Scan)
    → Keeps s s'
    → ((n : ℕ) → IsBalanced n s → IsBalanced (n + k) s')
    → IsAccounted l s
    → IsAccounted (l + k) s'
kept-IsAccounted l k s s' (p, a) f (inl (h, b)) = inl (ap is_aborting p ∙ h, f l b)
kept-IsAccounted l k s s' (p, a) f (inr (h, b)) =
    let c = f (l + length s.abandoned) b in inr (p ∙ h, omega (arith, c, ap length a))

late_panics-cons :
    (l : ℕ) (e : Event) (events : List Event)
    → l + late_panics (e ∷ events) ≡ l + late_panics (e ∷ []) + late_panics events
late_panics-cons l (reads r permit) events = omega arith
late_panics-cons l interrupt events = omega arith
late_panics-cons l (advances i schedule) events = omega arith
late_panics-cons l (panics i) events = omega arith
late_panics-cons l (panics_late i) events = omega arith
late_panics-cons l joins events = omega arith
late_panics-cons l all_joined events = omega arith
late_panics-cons l deadline events = omega arith
late_panics-cons l (records is_stored) events = omega arith
late_panics-cons l aborts events = omega arith

-- A test of the phase that fails on an aborted scan leaves the first case.
before_abort :
    (test : Phase → Bool) (l : ℕ) (s s' : Scan) (o : Option Scan)
    → test aborting ≡ false
    → IsAccounted l s
    → when (test s.phase) o ≡ some s'
    → (is_aborting s.phase ≡ false) × IsBalanced l s × (o ≡ some s')
before_abort test l s s' o q (inl (h, b)) e = (h, b, (when-some (test s.phase) o e).1)
before_abort test l s s' o q (inr (h, b)) e =
    let closed_now : test s.phase ≡ false = ap test h ∙ q in
    let open_now : test s.phase ≡ true = (when-some (test s.phase) o e).0 in cc

on_verdict-phase :
    (v : LineVerdict) (permit : Permit) (s : Scan)
    → is_aborting s.phase ≡ false
    → is_aborting (on_verdict v permit s).phase ≡ false
unfolding on_verdict on_permit skip_url count_closed spawn_task
on_verdict-phase crashes permit s h = refl
on_verdict-phase ignored permit s h = h
on_verdict-phase skips permit s h = h
on_verdict-phase (attempts url) acquired s h = h
on_verdict-phase (attempts url) closed s h = h
on_verdict-phase (attempts url) interrupted s h = refl

on_read_error-phase :
    (s : Scan) → is_aborting s.phase ≡ false → is_aborting (on_read_error s).phase ≡ false
unfolding on_read_error
on_read_error-phase s h = ground arith

module _ (warns : Bool) (crate : UrlCrate) (allow_localhost : Bool) where
  on_read-IsBalanced :
      (l : ℕ) (r : LineResult) (permit : Permit) (s : Scan)
      → IsBalanced l s
      → IsBalanced l (on_read warns crate allow_localhost r permit s)
  unfolding on_read
  on_read-IsBalanced l (line text) permit s b =
      on_verdict-IsBalanced l (read_line warns crate allow_localhost text) permit
        (record s { consecutive_errors = 0 }) b
  on_read-IsBalanced l end_of_input permit s b = b
  on_read-IsBalanced l read_error permit s b = on_read_error-IsBalanced l s b

  on_read-phase :
      (r : LineResult) (permit : Permit) (s : Scan)
      → is_aborting s.phase ≡ false
      → is_aborting (on_read warns crate allow_localhost r permit s).phase ≡ false
  unfolding on_read
  on_read-phase (line text) permit s h =
      on_verdict-phase (read_line warns crate allow_localhost text) permit
        (record s { consecutive_errors = 0 }) h
  on_read-phase end_of_input permit s h = refl
  on_read-phase read_error permit s h = on_read_error-phase s h

  step-IsAccounted :
      (l : ℕ) (e : Event) (s s' : Scan)
      → IsAccounted l s
      → step warns crate allow_localhost e s ≡ some s'
      → IsAccounted (l + late_panics (e ∷ [])) s'
  unfolding step on_deadline
  step-IsAccounted l (reads r permit) s s' a e =
      let (h, b, f) = before_abort is_scanning l s s' _ refl a e in
      rw (sym (some_inj f)) (
        inl (
          on_read-phase r permit s h,
          plus_zero l (on_read warns crate allow_localhost r permit s)
              (on_read-IsBalanced l r permit s b),
        ))
  step-IsAccounted l interrupt s s' a e =
      let (h, b, f) = before_abort is_scanning l s s' _ refl a e in
      rw (sym (some_inj f)) (inl (refl, plus_zero l s b))
  step-IsAccounted l (advances i schedule) s s' a e =
      let f = (when-some _ _ e).1 in
      kept-IsAccounted l 0 s s' (advance_task-Keeps i schedule s s' f)
        (λ n b. plus_zero n s' (advance_task-IsBalanced n i schedule s s' b f)) a
  step-IsAccounted l (panics i) s s' a e =
      let f = (when-some _ _ e).1 in
      kept-IsAccounted l 0 s s' (panic_task-Keeps i false s s' f)
        (λ n b. panic_task-IsBalanced n i false s s' b f) a
  step-IsAccounted l (panics_late i) s s' a e =
      let f = (when-some _ _ e).1 in
      kept-IsAccounted l 1 s s' (panic_task-Keeps i true s s' f)
        (λ n b. panic_task-IsBalanced n i true s s' b f) a
  step-IsAccounted l joins s s' a e =
      let f = (when-some _ _ e).1 in
      kept-IsAccounted l 0 s s' (join_panicked-Keeps s.panicked s s' f)
        (λ n b. plus_zero n s' (join_panicked-IsBalanced n s.panicked s s' refl b f)) a
  step-IsAccounted l all_joined s s' a e =
      let (h, b, f) = before_abort is_draining l s s' _ refl a e in
      rw ((end_drain-same s s' f).2) (inl (refl, plus_zero l s b))
  step-IsAccounted l deadline s s' a e =
      let (h, b, f) = before_abort is_draining l s s' _ refl a e in
      rw (sym (some_inj f)) (inl (refl, plus_zero l s b))
  step-IsAccounted l (records is_stored) s s' a e =
      let f = (when-some _ _ e).1 in
      kept-IsAccounted l 0 s s' (record_abandoned-Keeps is_stored s.unrecorded s s' f)
        (λ n b. plus_zero n s' (record_abandoned-IsBalanced n is_stored s.unrecorded s s' b f)) a
  step-IsAccounted l aborts s s' a e =
      let (h, b, f) = before_abort is_recording l s s' _ refl a e in
      let (p, c) = abort_tasks-Aborted l s.unrecorded s s' b f in inr (p, omega (arith, c))

  run_scan-IsAccounted :
      (l : ℕ) (events : List Event) (s s' : Scan)
      → IsAccounted l s
      → run_scan warns crate allow_localhost events s ≡ some s'
      → IsAccounted (l + late_panics events) s'
  unfolding run_scan
  run_scan-IsAccounted l [] s s' a r =
      kept-IsAccounted l 0 s s' (rw (sym (some_inj r)) (refl, refl))
        (λ n b. plus_zero n s' (rw (sym (some_inj r)) b)) a
  run_scan-IsAccounted l (e ∷ events) s s' a r =
      elim (Option-cases (step warns crate allow_localhost e s)) [
        | inl h ↦ let g = rw (h, run_scan) at r in absurd (ground arith)
        | inr (t, h) ↦
            subst (λ k. IsAccounted k s') (sym (late_panics-cons l e events))
              (run_scan-IsAccounted (l + late_panics (e ∷ [])) events t s'
                (step-IsAccounted l e s t a h) (rw (h, run_scan) at r))
      ]

  reached-IsAccounted :
      (events : List Event) (total : ℕ) (has_callback : Bool) (s : Scan)
      → run_scan warns crate allow_localhost events (start_scan total has_callback) ≡ some s
      → IsAccounted (late_panics events) s
  reached-IsAccounted events total has_callback s r =
      subst (λ k. IsAccounted k s) (omega arith)
        (run_scan-IsAccounted 0 events (start_scan total has_callback) s (inl (refl, omega arith))
          r)

  -- Where the drain of a scan ends because no task is left, the URLs counted as successful, failed
  -- or skipped are those attempted, and one more for each task that panicked behind its counter, up
  -- to the wrap of the 64-bit counters, whatever the lines, the outcomes and the order are in which
  -- the stages of the tasks run.
  pub settled-run_scan :
      (events : List Event) (total : ℕ) (has_callback : Bool) (s s' : Scan)
      → run_scan warns crate allow_localhost events (start_scan total has_callback) ≡ some s
      → step warns crate allow_localhost all_joined s ≡ some s'
      → settled s'.progress ≡ (s'.attempted + late_panics events) % 2 ^ 64
  unfolding step
  settled-run_scan events total has_callback s s' r e =
      let a = reached-IsAccounted events total has_callback s r in
      let (h, b, f) = before_abort is_draining (late_panics events) s s' _ refl a e in
      let (t, p, same) = end_drain-same s s' f in rw same (omega (arith, b, ap uncounted t, p))

  -- Once the drain has ended at its deadline and aborted the tasks, at each time, the URLs counted
  -- as successful, failed or skipped, with those of tasks that have not counted theirs and those of
  -- panicked tasks that were not joined, are the URLs attempted, the panics behind the counter and
  -- the URLs of the snapshot, up to the wrap of the 64-bit counters: a task of the snapshot that
  -- counts its URL, before the snapshot or later, has it counted twice.
  pub aborted-run_scan :
      (events : List Event) (total : ℕ) (has_callback : Bool) (s : Scan)
      → run_scan warns crate allow_localhost events (start_scan total has_callback) ≡ some s
      → s.phase ≡ aborting
      → (settled s.progress + uncounted s.running + s.panicked) % 2 ^ 64
        ≡ (s.attempted + late_panics events + length s.abandoned) % 2 ^ 64
  aborted-run_scan events total has_callback s r q =
      elim (reached-IsAccounted events total has_callback s r) [
        | inl (h, b) ↦ let other : is_aborting s.phase ≡ true = ap is_aborting q in cc
        | inr (h, b) ↦ omega (arith, b)
      ]
