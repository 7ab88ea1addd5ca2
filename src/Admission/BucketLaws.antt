-- ===== src/Admission/BucketLaws.antt =====
-- The permits of a bucket under every order of takers and refills: rate_limiter.rs.
use domain_status.Common.{
  ℕ, zero, suc, ◌+◌, ◌-◌, ◌≤◌, ◌≡◌, refl, sym, inl, inr, Option, none, some, List, [], ◌∷◌, arith,
  Option-cases, some_inj,
}
use domain_status.Admission.Bucket.{
  Floats, compute_refill_permits, Bucket, init_rate_limiter, compute, add_pending, take_permit,
  acquire, BucketEvent, computes, adds, takes, compute_free, add_ready, bucket_step, bucket_run,
}

abbrev pub pending_permits : Option ℕ → ℕ
pending_permits none = 0
pending_permits (some n) = n

module _ (f : Floats) where
  -- A refill never overfills the bucket, whatever the floating-point results are.
  pub compute_refill_permits_le :
      (rps elapsed available capacity : ℕ) (fractional : f.F64)
      → available ≤ capacity
      → available + (compute_refill_permits f rps elapsed available capacity fractional).0
        ≤ capacity
  unfolding compute_refill_permits
  compute_refill_permits_le rps elapsed available capacity x h = ground arith

  -- The permits and those about to be added fit in the bucket, and every token taken was there at
  -- the start or was added.
  pub record IsBounded (burst : ℕ) (b : Bucket f) : Type 0 where
    pub capped : b.capacity ≡ burst
    pub fits : b.permits + pending_permits b.pending ≤ burst
    pub conserved : b.admitted + b.permits ≡ burst + b.added

  pub compute_free-IsBounded :
      (burst : ℕ) (now : ℕ) (p : Option ℕ) (b c : Bucket f)
      → b.pending ≡ p
      → IsBounded burst b
      → compute_free f now p b ≡ some c
      → IsBounded burst c
  unfolding compute
  compute_free-IsBounded burst now none b c q v e =
      let l : b.permits + pending_permits (compute f now b).pending ≤ b.capacity =
        compute_refill_permits_le b.rps (now - b.last_refill) b.permits b.capacity b.fractional
          (ground (arith, v.fits, v.capped)) in
      rw (sym (some_inj e))
        (record { capped = v.capped; fits = omega (arith, l, v.capped); conserved = v.conserved })
  compute_free-IsBounded burst now (some n) b c q v e = absurd (ground arith)

  pub add_ready-IsBounded :
      (burst : ℕ) (p : Option ℕ) (b c : Bucket f)
      → b.pending ≡ p
      → IsBounded burst b
      → add_ready f p b ≡ some c
      → IsBounded burst c
  unfolding add_pending
  add_ready-IsBounded burst none b c q v e = absurd (ground arith)
  add_ready-IsBounded burst (some n) b c q v e =
      let l : b.permits + n ≤ burst = rw q at v.fits in
      rw (sym (some_inj e)) (record {
        capped = v.capped;
        fits = omega (arith, l);
        conserved = omega (arith, v.conserved);
      })

  pub take_permit-IsBounded :
      (burst : ℕ) (n : ℕ) (b c : Bucket f)
      → b.permits ≡ n
      → IsBounded burst b
      → take_permit f n b ≡ some c
      → IsBounded burst c
  take_permit-IsBounded burst zero b c q v e = absurd (ground arith)
  take_permit-IsBounded burst (suc n) b c q v e = rw (sym (some_inj e)) (record {
    capped = v.capped;
    fits = omega (arith, q, v.fits);
    conserved = omega (arith, q, v.conserved);
  })

  bucket_step-IsBounded :
      (burst : ℕ) (e : BucketEvent f) (b c : Bucket f)
      → IsBounded burst b
      → bucket_step f e b ≡ some c
      → IsBounded burst c
  unfolding bucket_step acquire
  bucket_step-IsBounded burst (computes now) b c v e =
      compute_free-IsBounded burst now b.pending b c refl v e
  bucket_step-IsBounded burst adds b c v e = add_ready-IsBounded burst b.pending b c refl v e
  bucket_step-IsBounded burst takes b c v e = take_permit-IsBounded burst b.permits b c refl v e

  bucket_run-IsBounded :
      (burst : ℕ) (events : List (BucketEvent f)) (b c : Bucket f)
      → IsBounded burst b
      → bucket_run f events b ≡ some c
      → IsBounded burst c
  unfolding bucket_run
  bucket_run-IsBounded burst [] b c v r = rw (sym (some_inj r)) v
  bucket_run-IsBounded burst (e ∷ events) b c v r = elim (Option-cases (bucket_step f e b)) [
    | inl h ↦ let x = rw (h, bucket_run) at r in absurd (ground arith)
    | inr (d, h) ↦
        bucket_run-IsBounded burst events d c (bucket_step-IsBounded burst e b d v h)
          (rw (h, bucket_run) at r)
  ]

  started :
      (rps burst now : ℕ) (b : Bucket f)
      → init_rate_limiter f rps burst now ≡ some b
      → IsBounded burst b
  unfolding init_rate_limiter
  started rps burst now b i = ground arith

  -- However takers and refills interleave on a limiter that init_rate_limiter made, the bucket
  -- never holds more than `burst` tokens, and at most `burst` URLs more than there were tokens added
  -- are admitted.
  pub bucket_run_bounded :
      (rps burst now : ℕ) (events : List (BucketEvent f)) (b c : Bucket f)
      → init_rate_limiter f rps burst now ≡ some b
      → bucket_run f events b ≡ some c
      → (c.permits ≤ burst) × (c.admitted + c.permits ≡ burst + c.added)
  bucket_run_bounded rps burst now events b c i r =
      let v = bucket_run-IsBounded burst events b c (started rps burst now b i) r in
      (omega (arith, v.fits), v.conserved)
