-- ===== src/Jobs/Backoff.antt =====
-- The delay before a retry (retryDelay in internal/jobqueue/postgres.go).
use kontor.Prelude.{
  ℕ, suc, zero, ◌+◌, ◌-◌, ◌*◌, ◌^◌, ◌≤◌, ◌≡◌, arith, second, hour, ltb, ℤ, pos, max_int, ap, ◌∙◌,
  if◌then◌else◌,
}
use kontor.Jobs.Failure.{retry_delay}

pow_pos : (k : ℕ) → 1 ≤ 2 ^ k
pow_pos zero = omega arith
pow_pos (suc k) = omega (arith, pow_pos k)

pow_suc : (k : ℕ) → 2 ^ suc k ≡ 2 * 2 ^ k
pow_suc k = omega arith

pow_le : (n k : ℕ) → 2 ^ n ≤ 2 ^ (n + k)
pow_le n zero = let e : n + 0 ≡ n = omega arith in rw e (omega arith)
pow_le n (suc k) =
    let e : n + suc k ≡ suc (n + k) = omega arith in
    rw e (omega (arith, pow_le n k, pow_suc (n + k)))

-- The product of the attempt `n + 1` fits an int64.
product_fits : (n : ℕ) → n ≤ 28 → 30 * second * 2 ^ n ≤ max_int
product_fits n h =
    let e : n + (28 - n) ≡ 28 = omega arith in
    let most : 2 ^ n ≤ 2 ^ (n + (28 - n)) = pow_le n (28 - n) in
    let bound = rw e at most in omega (arith, bound)

-- The delay after the attempt `n + 1`.
delay_closed :
    (beyond : ℕ → ℤ) (n : ℕ)
    → n ≤ 28
    → retry_delay beyond (n + 1)
      ≡ pos (if ltb hour (30 * second * 2 ^ n) then hour else 30 * second * 2 ^ n)
unfolding retry_delay
delay_closed beyond n h = let e : n + 1 - 1 ≡ n = omega arith in ground (arith, e, product_fits n h)

-- After each of the first 28 attempts, whatever the platform makes of a float64 that is too large,
-- the delay lies between 30 seconds and one hour, and the next attempt doubles it until it reaches
-- the hour.
pub retry_delay_lem :
    (beyond : ℕ → ℤ) (n : ℕ)
    → n ≤ 27
    → (d : ℕ) × (retry_delay beyond (n + 1) ≡ pos d)
      × (30 * second ≤ d)
      × (d ≤ hour)
      × (retry_delay beyond (n + 2) ≡ pos (if ltb hour (2 * d) then hour else 2 * d))
retry_delay_lem beyond n h = (
  if ltb hour (30 * second * 2 ^ n) then hour else 30 * second * 2 ^ n,
  delay_closed beyond n (omega arith),
  ground (arith, pow_pos n),
  ground (arith, pow_pos n),
  ap (retry_delay beyond) (omega arith)
      ∙ delay_closed beyond (suc n) (omega arith)
      ∙ ap pos (ground (arith, pow_suc n, pow_pos n)),
)
