-- ===== src/Retry/ExecuteTotal.antt =====
-- The whole of `execute_with_retry`, under the strategy that the program uses.
use domain_status.Common.{
  ℕ, ◌+◌, ◌*◌, ◌^◌, ◌≤◌, ◌<◌, min, ◌≡◌, ap, sym, ◌∙◌, Bool, some, arith, Result, err, length,
  get_elem?, some_inj,
}
use domain_status.Retry.Backoff.{get_retry_strategy}
use domain_status.Retry.Execute.{Meter, Failure, exhausted, execute_with_retry, idle, retry_count}
use domain_status.Retry.ExecuteLaws.{
  Transient, Run, attempts_total, Run-length, Run-exhausted, Run-gave_up,
}
use domain_status.Retry.Delays.{Run-delay}

module _ {T E : Type 0} (operation : ℕ → Result T E) (is_retriable : E → Bool) where
  -- What a run of the loop is, and what it leaves in the meter.
  pub record Executed : Type 0 where
    pub result : Result T (Failure E)
    pub meter : Meter
    pub returned : execute_with_retry operation is_retriable ≡ some (result, meter)
    pub run : Run operation is_retriable 0 get_retry_strategy result meter.slept
    pub attempts_made : meter.attempt_count ≡ length meter.slept + 1
    pub retries_counted : meter.retries ≡ length meter.slept
    pub retries_reported : retry_count meter ≡ length meter.slept
    pub bounded : length meter.slept ≤ 3

-- `execute_with_retry` returns: it makes at most four attempts, all but the last of which failed
-- with a retriable error and were followed by a delay of the strategy, and it returns the outcome
-- of the last. The attempt counter, the retry metric and the reported retry count agree with the
-- delays slept.
pub execute_with_retry_total :
    {T E : Type 0} (operation : ℕ → Result T E) (is_retriable : E → Bool)
    → Executed operation is_retriable
unfolding execute_with_retry get_retry_strategy retry_count
execute_with_retry_total operation is_retriable =
    let o = attempts_total operation is_retriable 4 0 get_retry_strategy idle (omega arith) in
    let bounded = Run-length operation is_retriable o.run in
    let same = ap length o.slept in
    record {
      result = o.result;
      meter = o.meter;
      returned = o.returned;
      run = rw o.slept o.run;
      attempts_made = omega (arith, o.counted, same, bounded);
      retries_counted = omega (arith, o.retried, same);
      retries_reported = omega (arith, o.counted, same, bounded);
      bounded = omega (arith, same, bounded);
    }

-- The delay before the second, third and fourth attempt is 500 ms, doubled each time, and never
-- above 15 s.
pub execute_with_retry-delay :
    {T E : Type 0} (operation : ℕ → Result T E) (is_retriable : E → Bool) (r : Result T (Failure E))
    (m : Meter) (i : ℕ)
    → execute_with_retry operation is_retriable ≡ some (r, m)
    → i < length m.slept
    → get_elem? m.slept i ≡ some (min (500 * 2 ^ i) 15000)
unfolding get_retry_strategy
execute_with_retry-delay operation is_retriable r m i e h =
    let x = execute_with_retry_total operation is_retriable in
    let same : x.meter ≡ m = ap (λ p. p.1) (some_inj (sym x.returned ∙ e)) in
    ap (λ v. get_elem? v.slept i) (sym same)
    ∙ Run-delay operation is_retriable i x.run (omega arith) (omega arith) (rw same h)

-- Where every attempt fails with a retriable error the loop makes exactly four attempts, and
-- returns the error of the last one.
pub execute_with_retry_exhausted :
    {T E : Type 0} (operation : ℕ → Result T E) (is_retriable : E → Bool)
    → ((i : ℕ) → Transient operation is_retriable i)
    → (e : E) × (m : Meter) × (execute_with_retry operation is_retriable
        ≡ some (err (exhausted e), m))
      × (operation 3 ≡ err e)
      × (m.attempt_count ≡ 4)
      × (retry_count m ≡ 3)
unfolding get_retry_strategy
execute_with_retry_exhausted operation is_retriable all =
    let x = execute_with_retry_total operation is_retriable in
    let full = Run-exhausted operation is_retriable all x.run in
    let (e, last, same) = Run-gave_up operation is_retriable all x.run in
    (
      e,
      x.meter,
      rw (← same) x.returned,
      ap operation (omega (arith, full)) ∙ last,
      omega (arith, x.attempts_made, full),
      omega (arith, x.retries_reported, full),
    )
