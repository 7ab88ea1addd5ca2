-- ===== src/Run/Tests.antt =====
-- A short scan, and lines of the input.
use domain_status.Run.ExitCode.{Percentages, ScanReport, pct_greater_than, evaluate_exit_code}
use domain_status.Common.{
  ℕ, ◌+◌, ◌%◌, ◌^◌, ◌*◌, ltb, length, zero, suc, ◌<◌, ◌≤◌, ◌≡◌, refl, ◌↔◌, ◌⊎◌, true, false, ◌||◌,
  none, some, List, [], ◌∷◌, arith, Text, codes, ok, is_empty, starts_with, trim, utf8_len,
}
use domain_status.Security.Url.{validate_url_safe, check_host, is_http_scheme, is_localhost_domain}
use domain_status.Security.Ip.{is_private_ipv4}
use domain_status.Security.Net.V4
use domain_status.Security.UrlSafety.{IsSafeUrl}
use domain_status.Security.Demo.{secure, metadata, demo}
use domain_status.Run.Task.{Schedule, finished, timed_out, inserted, process_url_task}
use domain_status.Run.TaskLaws.{settled, Accounted, process_url_task-Accounted}
use domain_status.Run.Lines.{panicked, attempts, with_scheme, validate_and_normalize_url, read_line}
use domain_status.Run.LinesLaws.{
  IsNormalized, CutsChar, read_line-IsSafeUrl, validate_and_normalize_url_panics_iff,
}
use domain_status.Run.PoolLaws.{uncounted}
use domain_status.Run.Scan.{
  aborting, Scan, Event, reads, advances, panics, joins, all_joined, deadline, records, aborts,
  line, end_of_input, acquired, run_scan, step, start_scan,
}
use domain_status.Run.ScanLaws.{late_panics, settled-run_scan, aborted-run_scan}

scans : Unit {0}
unfolding run_scan process_url_task read_line validate_and_normalize_url validate_url_safe
    check_host is_http_scheme is_localhost_domain is_private_ipv4 V4.is_loopback V4.is_private
    V4.is_link_local with_scheme
scans = tt

-- Nothing is limited or cancelled, and the URL is inserted.
abbrev smooth : Schedule
smooth = record {
  cancelled_at_start = false;
  request = none;
  host = none;
  cancelled_before_request = false;
  processed = finished (ok inserted);
  is_stored = true;
}

-- The limiter lets the task pass, and process_url times out.
abbrev slow : Schedule
slow = record smooth { processed = timed_out }

-- A comment, a private address, a URL twice; one of its tasks ends, the other panics.
abbrev events : List Event
events =
    reads (line (codes "# seeds")) acquired
    ∷ reads (line metadata.href) acquired
    ∷ reads (line secure.href) acquired
    ∷ reads (line (codes " a.org/ ")) acquired
    ∷ advances 0 smooth
    ∷ advances 1 smooth
    ∷ advances 0 smooth
    ∷ advances 0 smooth
    ∷ reads end_of_input acquired
    ∷ panics 1
    ∷ advances 0 smooth
    ∷ joins
    ∷ advances 0 smooth
    ∷ []

abbrev run_of : List Event → Scan
run_of events = elim (run_scan true demo false events (start_scan 4 false)) [
  | none ↦ start_scan 0 true
  | some s ↦ s
]

abbrev reached : Scan
reached = run_of events

reached_run : run_scan true demo false events (start_scan 4 false) ≡ some reached
unfolding scans
reached_run = refl

counts :
    (reached.attempted ≡ 3)
    × (reached.progress.successful ≡ 1)
    × (reached.progress.skipped ≡ 1)
    × (reached.progress.failed ≡ 1)
unfolding scans
counts = (refl, refl, refl, refl)

finished_run :
    (s : Scan) × (step true demo false all_joined reached ≡ some s) × (settled s.progress ≡ 3)
unfolding scans
finished_run = (_, refl, refl)

settled-run_scan_example :
    settled finished_run.0.progress ≡ (finished_run.0.attempted + late_panics events) % 2 ^ 64
settled-run_scan_example =
    settled-run_scan true demo false events 4 false reached finished_run.0 reached_run
      finished_run.1

-- The deadline finds a task that waits for its row, behind its counter.
abbrev slow_events : List Event
slow_events =
    reads (line secure.href) acquired
    ∷ advances 0 slow
    ∷ advances 0 slow
    ∷ advances 0 slow
    ∷ reads end_of_input acquired
    ∷ deadline
    ∷ records true
    ∷ aborts
    ∷ []

abbrev late : Scan
late = run_of slow_events

late_run : run_scan true demo false slow_events (start_scan 4 false) ≡ some late
unfolding scans
late_run = refl

-- One URL is attempted, and counted twice.
late_counts : (late.attempted ≡ 1) × (late.progress.failed ≡ 2)
unfolding scans
late_counts = (refl, refl)

late_aborting : late.phase ≡ aborting
unfolding scans
late_aborting = refl

aborted-run_scan_example :
    (settled late.progress + uncounted late.running + late.panicked) % 2 ^ 64
    ≡ (late.attempted + late_panics slow_events + length late.abandoned) % 2 ^ 64
aborted-run_scan_example =
    aborted-run_scan true demo false slow_events 4 false late late_run late_aborting

process_url_task-Accounted_example :
    Accounted secure.href true reached.progress (process_url_task secure.href slow reached.progress)
process_url_task-Accounted_example = process_url_task-Accounted secure.href slow reached.progress

attempted_line : read_line true demo false (codes " a.org/ ") ≡ attempts secure.href
unfolding scans
attempted_line = refl

read_line-IsSafeUrl_example :
    ((is_empty (trim (codes " a.org/ ")) || starts_with (codes "#") (trim (codes " a.org/ ")))
      ≡ false)
    × IsNormalized demo (trim (codes " a.org/ ")) secure.href
    × IsSafeUrl demo secure.href
read_line-IsSafeUrl_example =
    read_line-IsSafeUrl true demo (codes " a.org/ ") secure.href attempted_line

abbrev repeated : ℕ → Text
repeated zero = []
repeated (suc n) = 233 ∷ repeated n

-- One byte and then characters of two bytes each: the 50th byte is the first of a character.
abbrev long_line : Text
long_line = 97 ∷ repeated 1024

validate_and_normalize_url_panics_iff_example :
    (validate_and_normalize_url true demo long_line ≡ panicked) ↔ (
      (2048 < utf8_len long_line × (true ≡ true × CutsChar long_line))
      ⊎ (utf8_len long_line ≤ 2048
          × 2048 < utf8_len (with_scheme long_line)
          × (true ≡ true × CutsChar (with_scheme long_line))))
validate_and_normalize_url_panics_iff_example =
    validate_and_normalize_url_panics_iff true demo long_line

long_line_panics : validate_and_normalize_url true demo long_line ≡ panicked
unfolding scans
long_line_panics = refl

not_below_zero : (n : ℕ) → ltb n 0 ≡ false
not_below_zero n = ground arith

-- Fractions, as a numerator and a denominator.
abbrev fractions : Percentages
fractions = record {
  F64 = ℕ × ℕ;
  of_nat = λ n. (n, 1);
  div = λ a b. (a.0 * b.1, a.1 * b.0);
  mul = λ a b. (a.0 * b.0, a.1 * b.1);
  gt = λ a b. ltb (b.0 * a.1) (a.0 * b.1);
  zero-gt = λ total pct h. not_below_zero (pct * (1 * total * 1));
}

abbrev two_of_ten : ScanReport
two_of_ten = record { total_urls = 10; failed = 2 }

above_ten : evaluate_exit_code fractions pct_greater_than 10 two_of_ten ≡ 2
unfolding evaluate_exit_code
above_ten = refl
