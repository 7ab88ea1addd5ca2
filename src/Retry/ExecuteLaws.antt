-- ===== src/Retry/ExecuteLaws.antt =====
-- How often `execute_with_retry` tries, and what it returns.
use domain_status.Common.{
  ℕ, zero, suc, ◌+◌, ◌%◌, ◌^◌, ◌≤◌, ◌<◌, ◌≡◌, refl, ap, sym, ◌∙◌, inl, inr, Bool, true, false, none,
  some, List, [], ◌∷◌, ◌++◌, arith, Result, ok, err, length, Result-cases, Option-cases, Bool-cases,
}
use mathlib.Core.List.{append-nil, append_assoc}
use native.Mathlib.Nat.{add-zero}
use domain_status.Retry.Backoff.{ExponentialBackoff, next}
use domain_status.Retry.Execute.{Meter, Failure, non_retriable, exhausted, attempts}

module _ {T E : Type 0} (operation : ℕ → Result T E) (is_retriable : E → Bool) where
  -- Attempt `n` failed with an error that may be tried again.
  abbrev pub Transient : ℕ → Type 0
  Transient n = (e : E) × (operation n ≡ err e) × (is_retriable e ≡ true)

  -- A run of the loop from attempt `n`: transient failures, each followed by the next delay of the
  -- strategy, and then the attempt whose outcome is returned.
  pub data Run : ℕ → ExponentialBackoff → Result T (Failure E) → List ℕ → Type 0 where
    success :
        {n : ℕ} {b : ExponentialBackoff} (value : T)
        → operation n ≡ ok value
        → Run n b (ok value) []
    permanent :
        {n : ℕ} {b : ExponentialBackoff} (e : E)
        → operation n ≡ err e
        → is_retriable e ≡ false
        → Run n b (err (non_retriable e)) []
    gave_up :
        {n : ℕ} {b : ExponentialBackoff} (e : E)
        → operation n ≡ err e
        → is_retriable e ≡ true
        → next b ≡ none
        → Run n b (err (exhausted e)) []
    again :
        {n : ℕ} {b b' : ExponentialBackoff} {delay : ℕ} {r : Result T (Failure E)} {delays : List ℕ}
        → Transient n
        → next b ≡ some (delay, b')
        → Run (n + 1) b' r delays
        → Run n b r (delay ∷ delays)

  -- The outcome of the loop, with what it has added to the meter.
  pub record Outcome (fuel n : ℕ) (b : ExponentialBackoff) (m : Meter) : Type 0 where
    pub result : Result T (Failure E)
    pub meter : Meter
    pub delays : List ℕ
    pub returned : attempts operation is_retriable fuel n b m ≡ some (result, meter)
    pub run : Run n b result delays
    pub counted : meter.attempt_count ≡ (m.attempt_count + length delays + 1) % 2 ^ 32
    pub retried : meter.retries ≡ m.retries + length delays
    pub slept : meter.slept ≡ m.slept ++ delays

  next-remaining :
      (b : ExponentialBackoff) {delay : ℕ} {b' : ExponentialBackoff}
      → next b ≡ some (delay, b')
      → b.remaining ≡ b'.remaining + 1
  unfolding next
  next-remaining b e = ground arith

  next-none : (b : ExponentialBackoff) → next b ≡ none → b.remaining ≡ 0
  unfolding next
  next-none b e = ground arith

  abbrev counted_once : Meter → Meter
  counted_once m = record m { attempt_count = (m.attempt_count + 1) % 2 ^ 32 }

  abbrev slept_once : Meter → ℕ → Meter
  slept_once m delay = record (counted_once m) {
    retries = m.retries + 1;
    slept = m.slept ++ delay ∷ [];
  }

  stopped :
      {fuel n : ℕ} {b : ExponentialBackoff} {m : Meter} (r : Result T (Failure E)) (m' : Meter)
      → attempts operation is_retriable fuel n b m ≡ some (r, m')
      → Run n b r []
      → m'.attempt_count ≡ (m.attempt_count + 1) % 2 ^ 32
      → m'.retries ≡ m.retries
      → m'.slept ≡ m.slept
      → Outcome fuel n b m
  stopped {m} r m' returned run counted retried slept = record {
    result = r;
    meter = m';
    delays = [];
    returned = returned;
    run = run;
    counted = omega arith;
    retried = omega arith;
    slept = slept ∙ sym (append-nil m.slept);
  }

  continued :
      {fuel n : ℕ} {b b' : ExponentialBackoff} {m : Meter} {delay : ℕ}
      → Transient n
      → next b ≡ some (delay, b')
      → attempts operation is_retriable (suc fuel) n b m
        ≡ attempts operation is_retriable fuel (n + 1) b' (slept_once m delay)
      → Outcome fuel (n + 1) b' (slept_once m delay)
      → Outcome (suc fuel) n b m
  continued {m} {delay} failed more step o = record {
    result = o.result;
    meter = o.meter;
    delays = delay ∷ o.delays;
    returned = step ∙ o.returned;
    run = again failed more o.run;
    counted = omega (arith, o.counted);
    retried = omega (arith, o.retried);
    slept = o.slept ∙ append_assoc m.slept (delay ∷ []) o.delays;
  }

  pub attempts_total :
      (fuel n : ℕ) (b : ExponentialBackoff) (m : Meter) → b.remaining < fuel → Outcome fuel n b m
  attempts_total zero n b m h = elim h [ ]
  attempts_total (suc fuel) n b m h = elim (Result-cases (operation n)) [
    | inl (value, done) ↦
        stopped (ok value) (counted_once m) (unfold attempts in ground arith) (success value done)
          refl refl refl
    | inr (e, failed) ↦ elim (Bool-cases (is_retriable e)) [
      | inr never ↦
          stopped (err (non_retriable e))
            (record (counted_once m) { non_retriable_failures = m.non_retriable_failures + 1 })
            (unfold attempts in ground arith) (permanent e failed never) refl refl refl
      | inl may ↦ elim (Option-cases (next b)) [
        | inl last ↦
            stopped (err (exhausted e)) (counted_once m) (unfold attempts in ground arith)
              (gave_up e failed may last) refl refl refl
        | inr ((delay, b'), more) ↦
            continued (e, failed, may) more (unfold attempts in ground arith)
              (attempts_total fuel (n + 1) b' (slept_once m delay)
                (omega (arith, next-remaining b more)))
      ]
    ]
  ]

  -- A strategy with `remaining` delays gives a run at most that many.
  pub Run-length :
      {n : ℕ} {b : ExponentialBackoff} {r : Result T (Failure E)} {delays : List ℕ}
      → Run n b r delays
      → length delays ≤ b.remaining
  Run-length (success value done) = omega arith
  Run-length (permanent e failed never) = omega arith
  Run-length (gave_up e failed may last) = omega arith
  Run-length (again {b} failed more run) = omega (arith, Run-length run, next-remaining b more)

  -- If every attempt fails with an error that may be tried again, all delays are used.
  pub Run-exhausted :
      {n : ℕ} {b : ExponentialBackoff} {r : Result T (Failure E)} {delays : List ℕ}
      → ((i : ℕ) → Transient i)
      → Run n b r delays
      → length delays ≡ b.remaining
  Run-exhausted {n} all (success value done) = let (e, failed, may) = all n in ground arith
  Run-exhausted {n} all (permanent e failed never) = let (x, failed', may) = all n in ground arith
  Run-exhausted all (gave_up {b} e failed may last) = sym (next-none b last)
  Run-exhausted all (again {b} failed more run) =
      omega (arith, Run-exhausted all run, next-remaining b more)

  -- In that case the error is that of the last attempt.
  pub Run-gave_up :
      {n : ℕ} {b : ExponentialBackoff} {r : Result T (Failure E)} {delays : List ℕ}
      → ((i : ℕ) → Transient i)
      → Run n b r delays
      → (e : E) × (operation (n + length delays) ≡ err e) × (r ≡ err (exhausted e))
  Run-gave_up {n} all (success value done) = let (e, failed, may) = all n in absurd (ground arith)
  Run-gave_up {n} all (permanent e failed never) =
      let (x, failed', may) = all n in absurd (ground arith)
  Run-gave_up {n} all (gave_up e failed may last) = (e, rw add-zero failed, refl)
  Run-gave_up {n} all (again {delays} failed more run) =
      let (e, last, same) = Run-gave_up all run in (e, ap operation (omega arith) ∙ last, same)
