-- ===== src/Retry/Backoff.antt =====
-- `ExponentialBackoff` and `get_retry_strategy` of src/error_handling/categorization.rs. Delays are
-- in milliseconds.
use domain_status.Common.{ℕ, zero, suc, ◌*◌, min, Option, none, some}

abbrev pub u64_max : ℕ
u64_max = 0xffffffffffffffff

-- `u64::saturating_mul`.
abbrev pub saturating_mul : ℕ → ℕ → ℕ
saturating_mul a b = min (a * b) u64_max

pub record ExponentialBackoff : Type 0 where
  pub current_ms : ℕ
  pub factor : ℕ
  pub max_delay : ℕ
  pub remaining : ℕ

-- `Iterator::next`, by what remains.
next_from : ℕ → ExponentialBackoff → Option (ℕ × ExponentialBackoff)
next_from zero b = none
next_from (suc remaining) b = some (
  min b.current_ms b.max_delay,
  record b { remaining = remaining; current_ms = saturating_mul b.current_ms b.factor },
)

unfoldable pub next : ExponentialBackoff → Option (ℕ × ExponentialBackoff)
unfolding next_from
next b = next_from b.remaining b

abbrev pub retry_initial_delay_ms : ℕ
retry_initial_delay_ms = 500

abbrev pub retry_factor : ℕ
retry_factor = 2

abbrev pub retry_max_delay_secs : ℕ
retry_max_delay_secs = 15

abbrev pub retry_max_attempts : ℕ
retry_max_attempts = 3

unfoldable pub get_retry_strategy : ExponentialBackoff
get_retry_strategy = record {
  current_ms = retry_initial_delay_ms;
  factor = retry_factor;
  max_delay = retry_max_delay_secs * 1000;
  remaining = retry_max_attempts;
}
