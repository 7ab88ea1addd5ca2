-- ===== src/Admission/Tests.antt =====
-- Buckets over numbers of whole tokens.
use domain_status.Common.{
  ℕ, ◌+◌, ◌-◌, ◌*◌, ◌/◌, ◌≤◌, ◌≡◌, ◌≢◌, refl, some, none, List, [], ◌∷◌, Text, codes,
}
use domain_status.Admission.Bucket.{
  Floats, Bucket, BucketEvent, computes, adds, takes, new_bucket, init_rate_limiter, bucket_run,
}
use domain_status.Admission.BucketLaws.{bucket_run_bounded}
use domain_status.Admission.Hosts.{HostRateLimiter, new_limiter, acquire_host, lookup}
use domain_status.Admission.HostsLaws.{AllIdle, new_limiter-AllIdle, acquire_host-isolated}

-- Whole seconds and whole tokens.
abbrev whole : Floats
whole = record {
  F64 = ℕ;
  zero_f64 = 0;
  of_nat = λ n. n;
  seconds = λ n. n / 1000000000;
  add = λ a b. a + b;
  sub = λ a b. a - b;
  mul = λ a b. a * b;
  floor = λ a. a;
}

-- Three tokens are taken of four; two seconds later a refill of five a second fills the bucket, and
-- one more token is taken before the permits are added.
abbrev events : List (BucketEvent whole)
events = takes ∷ takes ∷ takes ∷ computes 2000000000 ∷ takes ∷ adds ∷ []

abbrev refilled : Bucket whole
refilled = record {
  permits = 3;
  capacity = 4;
  rps = 5;
  last_refill = 2000000000;
  fractional = 0;
  pending = none;
  admitted = 4;
  added = 3;
}

refilled_run : bucket_run whole events (new_bucket whole 5 4 0) ≡ some refilled
unfolding bucket_run
refilled_run = refl

started_run : init_rate_limiter whole 5 4 0 ≡ some (new_bucket whole 5 4 0)
unfolding init_rate_limiter
started_run = refl

bucket_run_bounded_example : (3 ≤ 4) × (4 + 3 ≡ 4 + 3)
bucket_run_bounded_example =
    bucket_run_bounded whole 5 4 0 events (new_bucket whole 5 4 0) refilled started_run refilled_run

abbrev limiter : HostRateLimiter whole
limiter = new_limiter whole 2 2

acquire_host-isolated_example :
    AllIdle whole (acquire_host whole (some (codes "a.org")) 0 (0 ∷ []) limiter)
    × ((k : Text)
        → k ≢ codes "a.org"
        → lookup whole k (acquire_host whole (some (codes "a.org")) 0 (0 ∷ []) limiter).buckets
          ≡ lookup whole k limiter.buckets)
acquire_host-isolated_example =
    acquire_host-isolated whole (codes "a.org") 0 (0 ∷ []) limiter (new_limiter-AllIdle whole 2 2)
