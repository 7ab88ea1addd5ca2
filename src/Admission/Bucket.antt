-- ===== src/Admission/Bucket.antt =====
-- A token bucket: its refill, and the tasks that take tokens between the two steps of a refill.
use domain_status.Common.{
  ℕ, zero, suc, ◌+◌, ◌-◌, ◌||◌, Option, none, some, List, [], ◌∷◌, min, leb, ◌==◌, if◌then◌else◌,
}

-- What the refill uses of `f64`. `seconds` reads a duration in nanoseconds, and `floor` is
-- `floor() as usize`.
pub record Floats : Type 1 where
  pub F64 : Type 0
  pub zero_f64 : F64
  pub of_nat : ℕ → F64
  pub seconds : ℕ → F64
  pub add : F64 → F64 → F64
  pub sub : F64 → F64 → F64
  pub mul : F64 → F64 → F64
  pub floor : F64 → ℕ

module _ (f : Floats) where
  -- The permits to add and the fraction that is left.
  unfoldable pub compute_refill_permits : ℕ → ℕ → ℕ → ℕ → f.F64 → ℕ × f.F64
  compute_refill_permits current_rps elapsed available capacity fractional_permits =
      if current_rps == 0 || leb capacity available
      then (0, f.zero_f64)
      else (let permits_to_add_f64 =
            f.add (f.mul (f.of_nat current_rps) (f.seconds elapsed)) fractional_permits in
          let whole_permits = f.floor permits_to_add_f64 in
          let permits_to_restore = capacity - available in
          let permits_to_add = min whole_permits permits_to_restore in
          let new_fractional =
            if permits_to_add == permits_to_restore
            then f.zero_f64
            else f.sub permits_to_add_f64 (f.of_nat whole_permits) in
          (permits_to_add, new_fractional))

  -- The semaphore with what the refill keeps. `pending` are the permits that a refill has computed
  -- and not yet added; `admitted` and `added` count the tokens that were taken and added.
  pub record Bucket : Type 0 where
    pub permits : ℕ
    pub capacity : ℕ
    pub rps : ℕ
    pub last_refill : ℕ
    pub fractional : f.F64
    pub pending : Option ℕ
    pub admitted : ℕ
    pub added : ℕ

  abbrev pub new_bucket : ℕ → ℕ → ℕ → Bucket
  new_bucket rps burst now = record {
    permits = burst;
    capacity = burst;
    rps = rps;
    last_refill = now;
    fractional = f.zero_f64;
    pending = none;
    admitted = 0;
    added = 0;
  }

  -- `init_rate_limiter`.
  unfoldable pub init_rate_limiter : ℕ → ℕ → ℕ → Option Bucket
  init_rate_limiter rps burst now = if rps == 0 then none else some (new_bucket rps burst now)

  -- The first half of a refill at the time `now`: read the permits and compute.
  unfoldable pub compute : ℕ → Bucket → Bucket
  unfolding compute_refill_permits
  compute now b =
      let (permits_to_add, new_fractional) =
        compute_refill_permits b.rps (now - b.last_refill) b.permits b.capacity b.fractional in
      record b { fractional = new_fractional; pending = some permits_to_add; last_refill = now }

  -- The second half: `add_permits`.
  unfoldable pub add_pending : ℕ → Bucket → Bucket
  add_pending n b = record b { permits = b.permits + n; pending = none; added = b.added + n }

  abbrev pub take_permit : ℕ → Bucket → Option Bucket
  take_permit zero b = none
  take_permit (suc n) b = some (record b { permits = n; admitted = b.admitted + 1 })

  -- `acquire` of a semaphore, or `try_acquire`, with `forget`: `none` waits.
  unfoldable pub acquire : Bucket → Option Bucket
  acquire b = take_permit b.permits b

  -- What the tasks and the ticker do, one at a time: refills exclude each other, takers do not.
  pub data BucketEvent : Type 0 where
    computes : ℕ → BucketEvent
    adds takes : BucketEvent

  abbrev pub compute_free : ℕ → Option ℕ → Bucket → Option Bucket
  compute_free now none b = some (compute now b)
  compute_free now (some n) b = none

  abbrev pub add_ready : Option ℕ → Bucket → Option Bucket
  add_ready none b = none
  add_ready (some n) b = some (add_pending n b)

  unfoldable pub bucket_step : BucketEvent → Bucket → Option Bucket
  unfolding compute add_pending acquire
  bucket_step (computes now) b = compute_free now b.pending b
  bucket_step adds b = add_ready b.pending b
  bucket_step takes b = acquire b

  unfoldable pub bucket_run : List BucketEvent → Bucket → Option Bucket
  unfolding bucket_step
  bucket_run [] b = some b
  bucket_run (e ∷ events) b = elim (bucket_step e b) [ none ↦ none | some c ↦ bucket_run events c ]
