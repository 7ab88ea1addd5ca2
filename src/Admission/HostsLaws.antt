-- ===== src/Admission/HostsLaws.antt =====
-- The buckets of the hosts, each by itself and side by side: host_rate_limiter.rs.
use native.Mathlib.Nat.{div-le_self, div-mul-le_self}
use domain_status.Common.{
  ℕ, zero, suc, ◌*◌, ◌/◌, max, ◌==◌, ◌≤◌, ◌≡◌, ◌≢◌, refl, sym, ap, ◌∙◌, inl, inr, Option, none,
  some, List, [], ◌∷◌, arith, Text, text_eq, text_eq_iff, if◌then◌else◌, Bool-cases, false,
  Option-cases, some_inj,
}
use domain_status.Admission.Bucket.{Floats, Bucket, compute, add_pending, acquire, take_permit}
use domain_status.Admission.BucketLaws.{
  IsBounded, compute_free-IsBounded, add_ready-IsBounded, take_permit-IsBounded,
}
use domain_status.Admission.Hosts.{
  HostRateLimiter, new_limiter, lookup, store, bucket, add_computed, refill, acquire_at,
  acquire_host, per_host_retry_delay,
}

module _ (f : Floats) where
  -- A bucket between refills.
  pub record IsIdle (burst : ℕ) (b : Bucket f) : Type 0 where
    pub idle : b.pending ≡ none
    pub bounded : IsBounded f burst b

  lookup-store_self :
      (host : Text) (b : Bucket f) (m : List (Text × Bucket f))
      → lookup f host (store f host b m) ≡ some b
  unfolding lookup store
  lookup-store_self host b [] = ground (arith, text_eq_iff host host)
  lookup-store_self host b ((h, c) ∷ rest) = ground (arith, lookup-store_self host b rest)

  lookup-store_other :
      (host k : Text) (b : Bucket f) (m : List (Text × Bucket f))
      → k ≢ host
      → lookup f k (store f host b m) ≡ lookup f k m
  unfolding lookup store
  lookup-store_other host k b [] d = ground (arith, text_eq_iff k host)
  lookup-store_other host k b ((h, c) ∷ rest) d = elim (Bool-cases (text_eq host h)) [
    | inl e ↦ rw (e, if◌then◌else◌) (ground (arith, text_eq_iff k h, text_eq_iff host h))
    | inr e ↦ rw (e, if◌then◌else◌) (ground (arith, lookup-store_other host k b rest d))
  ]

  add_computed-IsIdle :
      (burst : ℕ) (p : Option ℕ) (b : Bucket f)
      → b.pending ≡ p
      → IsBounded f burst b
      → IsIdle burst (add_computed f p b)
  add_computed-IsIdle burst none b q v = record { idle = q; bounded = v }
  add_computed-IsIdle burst (some n) b q v = record {
    idle = unfold add_pending in refl;
    bounded = add_ready-IsBounded f burst (some n) b (add_pending f n b) q v refl;
  }

  refill-IsIdle : (burst now : ℕ) (b : Bucket f) → IsIdle burst b → IsIdle burst (refill f now b)
  unfolding refill
  refill-IsIdle burst now b v =
      add_computed-IsIdle burst (compute f now b).pending (compute f now b) refl
        (compute_free-IsBounded f burst now none b (compute f now b) v.idle v.bounded refl)

  take_permit-idle : (n : ℕ) (b c : Bucket f) → take_permit f n b ≡ some c → c.pending ≡ b.pending
  take_permit-idle zero b c e = absurd (ground arith)
  take_permit-idle (suc n) b c e = rw (sym (some_inj e)) refl

  acquire-IsIdle :
      (burst : ℕ) (b c : Bucket f) → IsIdle burst b → acquire f b ≡ some c → IsIdle burst c
  unfolding acquire
  acquire-IsIdle burst b c v e = record {
    idle = take_permit-idle b.permits b c e ∙ v.idle;
    bounded = take_permit-IsBounded f burst b.permits b c refl v.bounded e;
  }

  acquire_at-IsIdle :
      (burst : ℕ) (rounds : List ℕ) (b : Bucket f)
      → IsIdle burst b
      → IsIdle burst (acquire_at f rounds b).0
  unfolding acquire_at
  acquire_at-IsIdle burst [] b v = v
  acquire_at-IsIdle burst (now ∷ rounds) b v =
      let r = refill-IsIdle burst now b v in
      elim (Option-cases (acquire f (refill f now b))) [
        | inl h ↦ rw (h, acquire_at) (acquire_at-IsIdle burst rounds (refill f now b) r)
        | inr (c, h) ↦ rw (h, acquire_at) (acquire-IsIdle burst (refill f now b) c r h)
      ]

  -- The buckets of a limiter, each idle and within the burst of the limiter.
  abbrev pub AllIdle : HostRateLimiter f → Type 0
  AllIdle l = (k : Text) (b : Bucket f) → lookup f k l.buckets ≡ some b → IsIdle l.burst b

  bucket-IsIdle :
      (l : HostRateLimiter f) (host : Text) (now : ℕ)
      → AllIdle l
      → IsIdle l.burst (bucket f l host now)
  unfolding bucket
  bucket-IsIdle l host now v = elim (Option-cases (lookup f host l.buckets)) [
    | inl h ↦
        rw (h, bucket)
          (record {
            idle = refl;
            bounded = record { capped = refl; fits = omega arith; conserved = omega arith };
          })
    | inr (b, h) ↦ rw (h, bucket) (v host b h)
  ]

  pub new_limiter-AllIdle : (rps burst : ℕ) → AllIdle (new_limiter f rps burst)
  unfolding new_limiter lookup
  new_limiter-AllIdle rps burst k b e = absurd (ground arith)

  -- Where no refill is under way and each bucket is within its burst, with the tokens taken and
  -- left making up the burst and the tokens added, an acquire for one host, however often its task
  -- wakes, keeps this, and leaves the buckets of all other hosts as they were.
  pub acquire_host-isolated :
      (host : Text) (now : ℕ) (rounds : List ℕ) (l : HostRateLimiter f)
      → AllIdle l
      → AllIdle (acquire_host f (some host) now rounds l)
        × ((k : Text)
            → k ≢ host
            → lookup f k (acquire_host f (some host) now rounds l).buckets ≡ lookup f k l.buckets)
  unfolding acquire_host
  acquire_host-isolated host now rounds l v =
      let b = (acquire_at f rounds (bucket f l host now)).0 in
      let idle =
        acquire_at-IsIdle l.burst rounds (bucket f l host now) (bucket-IsIdle l host now v) in
      (
        λ k c e. elim (Bool-cases (text_eq k host)) [
          | inl t ↦
              let same : k ≡ host = (text_eq_iff k host).0 t in
              let found : some b ≡ some c =
                sym (lookup-store_self host b l.buckets) ∙ (rw same at e) in
              rw (sym (some_inj found)) idle
          | inr t ↦
              v k c (
                sym (lookup-store_other host k b l.buckets (ground (arith, text_eq_iff k host)))
                ∙ e)
        ],
        λ k d. lookup-store_other host k b l.buckets d,
      )

delay_suc : (n : ℕ) → per_host_retry_delay (suc n) ≡ 1000 / suc n
unfolding per_host_retry_delay
delay_suc n =
    let m : max (suc n) 1 ≡ suc n = omega arith in
    let z : (suc n == 0) ≡ false = ground arith in rw (z, if◌then◌else◌) (ap (λ k. 1000 / k) m)

-- A waiting task sleeps at most a second, and at most `1 / rps` of a second.
pub per_host_retry_delay-le :
    (rps : ℕ) → (per_host_retry_delay rps ≤ 1000) × (per_host_retry_delay rps * rps ≤ 1000)
per_host_retry_delay-le zero = unfold per_host_retry_delay in omega arith
per_host_retry_delay-le (suc n) =
    rw (delay_suc n) (div-le_self 1000 (suc n), div-mul-le_self 1000 (suc n))
