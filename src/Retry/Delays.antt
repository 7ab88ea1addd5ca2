-- ===== src/Retry/Delays.antt =====
-- The delays between attempts, in closed form, and the whole of `execute_with_retry`.
use native.Mathlib.Nat.{pow-zero, pow-suc, mul_assoc, mul_comm, mul-le-mul_right}
use domain_status.Common.{
  ℕ, zero, suc, ◌*◌, ◌^◌, ◌≤◌, ◌<◌, min, ◌≡◌, ap, ◌∙◌, Bool, some, List, arith, Result, length,
  get_elem?, leb, leb→le, Bool-cases, inl, inr,
}
use domain_status.Retry.Backoff.{ExponentialBackoff, u64_max, saturating_mul, next}
use domain_status.Retry.Execute.{Failure}
use domain_status.Retry.ExecuteLaws.{Run, success, permanent, gave_up, again}

pow_pos : (f i : ℕ) → 1 ≤ f → 1 ≤ f ^ i
pow_pos f zero h = rw pow-zero (omega arith)
pow_pos f (suc i) h = rw pow-suc (grind (arith, pow_pos f i h))

-- Saturation does not show under a cap that fits in 64 bits.
saturated : (x p cap : ℕ) → 1 ≤ p → cap ≤ u64_max → min (min x u64_max * p) cap ≡ min (x * p) cap
saturated x p cap h k = elim (Bool-cases (leb x u64_max)) [
  | inl below ↦ let same : min x u64_max ≡ x = omega (arith, leb→le x u64_max below) in rw same
  | inr above ↦
      let same : min x u64_max ≡ u64_max = ground arith in
      let up : u64_max * p ≤ x * p = mul-le-mul_right p (ground arith) in
      rw same (omega (arith, up))
]

next-current :
    (b : ExponentialBackoff) {delay : ℕ} {b' : ExponentialBackoff}
    → next b ≡ some (delay, b')
    → (delay ≡ min b.current_ms b.max_delay)
      × (b'.current_ms ≡ saturating_mul b.current_ms b.factor)
      × (b'.factor ≡ b.factor)
      × (b'.max_delay ≡ b.max_delay)
unfolding next
next-current b e = ground arith

-- One step of the strategy is one more factor.
shifted :
    (b b' : ExponentialBackoff) (i : ℕ)
    → 1 ≤ b.factor
    → b.max_delay ≤ u64_max
    → b'.current_ms ≡ saturating_mul b.current_ms b.factor
    → b'.factor ≡ b.factor
    → b'.max_delay ≡ b.max_delay
    → min (b'.current_ms * b'.factor ^ i) b'.max_delay
      ≡ min (b.current_ms * b.factor ^ suc i) b.max_delay
shifted b b' i f m c g x =
    rw (c, g, x)
      (saturated (b.current_ms * b.factor) (b.factor ^ i) b.max_delay (pow_pos b.factor i f) m
        ∙ ap (λ t. min t b.max_delay)
            (rw (pow-suc, mul_assoc)
              (ap (λ t. b.current_ms * t) (mul_comm b.factor (b.factor ^ i)))))

module _ {T E : Type 0} (operation : ℕ → Result T E) (is_retriable : E → Bool) where
  -- The delay before retry `i + 1` is the initial delay times `factor ^ i`, cut at the cap.
  pub Run-delay :
      {n : ℕ} {b : ExponentialBackoff} {r : Result T (Failure E)} {delays : List ℕ} (i : ℕ)
      → Run operation is_retriable n b r delays
      → 1 ≤ b.factor
      → b.max_delay ≤ u64_max
      → i < length delays
      → get_elem? delays i ≡ some (min (b.current_ms * b.factor ^ i) b.max_delay)
  Run-delay i (success value done) f m h = absurd (omega arith)
  Run-delay i (permanent e failed never) f m h = absurd (omega arith)
  Run-delay i (gave_up e failed may last) f m h = absurd (omega arith)
  Run-delay zero (again {b} failed more run) f m h =
      let (first, c, g, x) = next-current b more in ap some (rw pow-zero (omega arith))
  Run-delay (suc i) (again {b} {b'} failed more run) f m h =
      let (first, c, g, x) = next-current b more in
      Run-delay i run (omega arith) (omega arith) (omega arith) ∙ ap some (shifted b b' i f m c g x)
