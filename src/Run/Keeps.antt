-- ===== src/Run/Keeps.antt =====
-- The phase and the snapshot of a scan over the events of src/run/mod.rs that change neither.
use domain_status.Common.{
  ℕ, zero, suc, ◌≡◌, refl, sym, Bool, true, false, Option, some, List, [], ◌∷◌, arith, Text,
  some_inj, none,
}
use domain_status.Run.Task.{Schedule}
use domain_status.Run.Pool.{RunningTask, Stage, spawned, polled, stored, counted, told}
use domain_status.Run.Scan.{
  Scan, record_abandoned, join_panicked, advance, advance_found, advance_task, panic_when,
  panic_found, panic_task,
}

-- What an event of a task leaves as it was.
abbrev pub Keeps : Scan → Scan → Type 0
Keeps s s' = (s'.phase ≡ s.phase) × (s'.abandoned ≡ s.abandoned)

pub record_abandoned-Keeps :
    (is_stored : Bool) (urls : List Text) (s s' : Scan)
    → record_abandoned is_stored urls s ≡ some s'
    → Keeps s s'
unfolding record_abandoned
record_abandoned-Keeps is_stored [] s s' e = absurd (ground arith)
record_abandoned-Keeps is_stored (url ∷ urls) s s' e = rw (sym (some_inj e)) (refl, refl)

pub join_panicked-Keeps : (n : ℕ) (s s' : Scan) → join_panicked n s ≡ some s' → Keeps s s'
unfolding join_panicked
join_panicked-Keeps zero s s' e = absurd (ground arith)
join_panicked-Keeps (suc n) s s' e = rw (sym (some_inj e)) (refl, refl)

advance-Keeps :
    (i : ℕ) (url : Text) (schedule : Schedule) (stage : Stage) (s : Scan)
    → Keeps s (advance i url schedule stage s)
unfolding advance
advance-Keeps i url schedule spawned s = (refl, refl)
advance-Keeps i url schedule polled s = (refl, refl)
advance-Keeps i url schedule (stored chosen) s = (refl, refl)
advance-Keeps i url schedule (counted chosen) s = (refl, refl)
advance-Keeps i url schedule (told chosen) s = (refl, refl)

advance_found-Keeps :
    (i : ℕ) (schedule : Schedule) (s s' : Scan) (o : Option RunningTask)
    → advance_found i schedule s o ≡ some s'
    → Keeps s s'
advance_found-Keeps i schedule s s' none e = absurd (ground arith)
advance_found-Keeps i schedule s s' (some task) e =
    rw (sym (some_inj e)) (advance-Keeps i task.url schedule task.stage s)

pub advance_task-Keeps :
    (i : ℕ) (schedule : Schedule) (s s' : Scan) → advance_task i schedule s ≡ some s' → Keeps s s'
unfolding advance_task
advance_task-Keeps i schedule s s' e = advance_found-Keeps i schedule s s' _ e

panic_when-Keeps :
    (b : Bool) (i : ℕ) (url : Text) (s s' : Scan) → panic_when b i url s ≡ some s' → Keeps s s'
panic_when-Keeps false i url s s' e = absurd (ground arith)
panic_when-Keeps true i url s s' e = rw (sym (some_inj e)) (refl, refl)

panic_found-Keeps :
    (i : ℕ) (late : Bool) (s s' : Scan) (o : Option RunningTask)
    → panic_found i late s o ≡ some s'
    → Keeps s s'
panic_found-Keeps i late s s' none e = absurd (ground arith)
panic_found-Keeps i late s s' (some task) e = panic_when-Keeps _ i task.url s s' e

pub panic_task-Keeps :
    (i : ℕ) (late : Bool) (s s' : Scan) → panic_task i late s ≡ some s' → Keeps s s'
unfolding panic_task
panic_task-Keeps i late s s' e = panic_found-Keeps i late s s' _ e
