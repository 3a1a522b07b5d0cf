-- ===== src/Retry/Bounds.antt =====
-- Bounds and monotonicity of the delays of retry_utils.c.
use mbed_ce_client_for_azure.Base.{
  ℕ, zero, suc, ◌+◌, ◌-◌, ◌*◌, ◌/◌, ◌^◌, ◌≤◌, ◌<◌, ◌≡◌, arith, min, ap,
}
use native.Mathlib.Nat.{
  pow-suc, mul-le-mul, mul-le-mul_left, mul-le-mul_right, div-zero, le-div_iff_mul-le,
  div-mul-le_self, le_trans, le_of_mul-le-mul_right,
}
use mbed_ce_client_for_azure.Retry.{
  backoff_ms, jittered_secs, retry_delay_calculator, retry_max_retry_exponent,
}

pow_mono : (a k : ℕ) → 2 ^ a ≤ 2 ^ (a + k)
pow_mono a zero = let e : a + 0 ≡ a = omega arith in rw e (omega arith)
pow_mono a (suc k) =
    let e : a + suc k ≡ suc (a + k) = omega arith in rw (e, pow-suc) (omega (arith, pow_mono a k))

pow-le : (a b : ℕ) → a ≤ b → 2 ^ a ≤ 2 ^ b
pow-le a b h = let e : b ≡ a + (b - a) = omega arith in rw e (pow_mono a (b - a))

backoff_ms_mono :
    (r s initial max : ℕ) → r ≤ s → backoff_ms r initial max ≤ backoff_ms s initial max
unfolding backoff_ms
backoff_ms_mono r s initial max h =
    let larger =
      mul-le-mul_right initial
        (pow-le (min r retry_max_retry_exponent) (min s retry_max_retry_exponent) (omega arith)) in
    omega (arith, larger)

backoff_ms_full :
    (r s initial max : ℕ) → 9 ≤ r → r ≤ s → backoff_ms r initial max ≡ backoff_ms s initial max
unfolding backoff_ms
backoff_ms_full r s initial max full h =
    let e : min r retry_max_retry_exponent ≡ min s retry_max_retry_exponent = omega arith in rw e

div_mono : (a b d : ℕ) → a ≤ b → a / d ≤ b / d
div_mono a b zero h = rw (div-zero, div-zero) (omega arith)
div_mono a b (suc d) h =
    (le-div_iff_mul-le (omega arith)).1 (le_trans (div-mul-le_self a (suc d)) h)

quotient_le :
    (q delay max jitter rand rand_max : ℕ)
    → q * (100000 * rand_max) ≤ delay * (100 * rand_max + jitter * rand)
    → delay ≤ max * 1000
    → rand ≤ rand_max
    → 0 < rand_max
    → 100 * q ≤ max * (100 + jitter)
quotient_le q delay max jitter rand rand_max below h j pos =
    let factor : 100 * rand_max + jitter * rand ≤ 100 * rand_max + jitter * rand_max =
      omega (arith, mul-le-mul_left jitter j) in
    let product = mul-le-mul h factor in
    let scaled : 100 * q * (1000 * rand_max) ≤ max * (100 + jitter) * (1000 * rand_max) =
      omega (arith, product, below) in
    le_of_mul-le-mul_right scaled (omega arith)

jittered_secs-le :
    (delay max jitter rand rand_max : ℕ)
    → delay ≤ max * 1000
    → rand ≤ rand_max
    → 0 < rand_max
    → 100 * jittered_secs delay jitter rand rand_max ≤ max * (100 + jitter)
unfolding jittered_secs
jittered_secs-le delay max jitter rand rand_max h j pos =
    quotient_le (delay * (100 * rand_max + jitter * rand) / (100000 * rand_max)) delay max jitter
      rand rand_max (div-mul-le_self (delay * (100 * rand_max + jitter * rand)) (100000 * rand_max))
      h j pos

-- With a random number up to its positive maximum, a retry is never due before the current time
-- and the additional delay, and, in hundredths of a second, at most `max_delay_secs * (100 +
-- max_jitter_percent)` later than these.
pub retry_delay_bounds :
    (now rand rand_max additional retries initial max jitter : ℕ)
    → rand ≤ rand_max
    → 0 < rand_max
    → let t = retry_delay_calculator now rand rand_max additional retries initial max jitter in
      (now + additional ≤ t) × (100 * t ≤ 100 * (now + additional) + max * (100 + jitter))
unfolding retry_delay_calculator backoff_ms
retry_delay_bounds now rand rand_max additional retries initial max jitter j pos =
    let delay = min (2 ^ min retries retry_max_retry_exponent * initial) (max * 1000) in
    let cap : delay ≤ max * 1000 = omega arith in
    let most = jittered_secs-le delay max jitter rand rand_max cap j pos in
    (omega arith, omega (arith, most))

-- With the same random number, more retries never give an earlier time, and from 9 retries on the
-- time stays the same.
pub retry_delay_mono :
    (now rand rand_max additional r s initial max jitter : ℕ)
    → r ≤ s
    → (retry_delay_calculator now rand rand_max additional r initial max jitter
        ≤ retry_delay_calculator now rand rand_max additional s initial max jitter)
      × (9 ≤ r
          → retry_delay_calculator now rand rand_max additional r initial max jitter
            ≡ retry_delay_calculator now rand rand_max additional s initial max jitter)
unfolding retry_delay_calculator jittered_secs
retry_delay_mono now rand rand_max additional r s initial max jitter h =
    let more =
      mul-le-mul_right (100 * rand_max + jitter * rand) (backoff_ms_mono r s initial max h) in
    let later = div_mono _ _ (100000 * rand_max) more in
    (
      omega (arith, later),
      λ full.
          ap (λ d. now + additional + d * (100 * rand_max + jitter * rand) / (100000 * rand_max))
            (backoff_ms_full r s initial max full h),
    )
