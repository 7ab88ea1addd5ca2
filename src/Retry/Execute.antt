-- ===== src/Retry/Execute.antt =====
-- `execute_with_retry` and the retry count of `process_url` in src/utils/process.rs. The operation
-- is a parameter, with the number of the attempt as its argument; `is_retriable` is a parameter too.
use domain_status.Common.{
  ℕ, zero, suc, ◌+◌, ◌-◌, ◌%◌, ◌^◌, Bool, true, false, Option, none, some, List, [], ◌∷◌, ◌++◌,
  Result, ok, err,
}
use domain_status.Retry.Backoff.{ExponentialBackoff, next, get_retry_strategy}

-- What the loop writes: the shared attempt counter (an `AtomicU32`), the runtime metrics, and the
-- delays that it has slept, in order.
pub record Meter : Type 0 where
  pub attempt_count : ℕ
  pub retries : ℕ
  pub non_retriable_failures : ℕ
  pub slept : List ℕ

-- The error of the loop: the operation's own, with the context "Non-retriable error" or without.
pub data Failure (E : Type 0) : Type 0 where
  non_retriable : E → Failure E
  exhausted : E → Failure E

abbrev pub idle : Meter
idle = record { attempt_count = 0; retries = 0; non_retriable_failures = 0; slept = [] }

-- `retry_count` of `process_url`: `saturating_sub(1)` of the attempts.
unfoldable pub retry_count : Meter → ℕ
retry_count m = m.attempt_count - 1

module _ {T E : Type 0} (operation : ℕ → Result T E) (is_retriable : E → Bool) where
  -- The `loop`, on fuel; `none` means that the fuel ran out. `n` counts the attempts made.
  unfoldable pub attempts :
      ℕ → ℕ → ExponentialBackoff → Meter → Option (Result T (Failure E) × Meter)
  attempts zero n strategy m = none
  attempts (suc fuel) n strategy m =
      let counted = record m { attempt_count = (m.attempt_count + 1) % 2 ^ 32 } in
      elim (operation n) [
        | ok value ↦ some (ok value, counted)
        | err error ↦ elim (is_retriable error) [
          | false ↦ some (
            err (non_retriable error),
            record counted { non_retriable_failures = m.non_retriable_failures + 1 },
          )
          | true ↦ elim (next strategy) [
            | none ↦ some (err (exhausted error), counted)
            | some (delay, strategy') ↦
                attempts fuel (n + 1) strategy'
                  (record counted { retries = m.retries + 1; slept = m.slept ++ delay ∷ [] })
          ]
        ]
      ]

  -- The strategy allows as many rounds as it has delays, and one more.
  unfoldable pub execute_with_retry : Option (Result T (Failure E) × Meter)
  unfolding attempts
  execute_with_retry = attempts (get_retry_strategy.remaining + 1) 0 get_retry_strategy idle
