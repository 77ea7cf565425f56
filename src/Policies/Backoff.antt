-- ===== src/Policies/Backoff.antt =====
-- The shape of the backoff delays.
use native.Mathlib.Nat.{
  le_trans, mul-div-mul_right, le-div_iff_mul-le, mul-pos, div-mul-le_self, mul-le-mul_left,
  pow-suc, mul_assoc, pow-zero,
}
use dbkit_sql.Prelude.{
  false, ℕ, zero, suc, ◌-◌, ◌*◌, ◌/◌, ◌^◌, ◌≤◌, ◌<◌, ◌≡◌, arith, Fraction, ◌==◌, string_eq,
}
use dbkit_sql.Policies.{RetryConfig, capped_delay, backoff_delay}

scale-le : (x n d : ℕ) → n ≤ d → x * n / d ≤ x
scale-le x n d h = grind arith

-- No delay is longer than `maximum_delay_ms`, and jitter only shortens it.
pub backoff_delay_bounds :
    (attempt : ℕ) (c : RetryConfig) (rand : Fraction)
    → rand.num < rand.den
    → (backoff_delay attempt c rand ≤ capped_delay attempt c)
      × (backoff_delay attempt c rand ≤ c.maximum_delay)
unfolding backoff_delay
backoff_delay_bounds attempt c rand h =
    ground (arith, scale-le (capped_delay attempt c) rand.num rand.den)

-- A quotient does not fall when the dividend grows by at least as much as the divisor.
quotient_grows : (x d n m : ℕ) → 0 < d → 0 < m → m ≤ n → x / d ≤ x * n / (d * m)
quotient_grows x d n m hd hm h = rw (← mul-div-mul_right x d hm) (
    (le-div_iff_mul-le (mul-pos hd hm)).1
      (le_trans (div-mul-le_self (x * m) (d * m)) (mul-le-mul_left x h)))

pow-pos : (d k : ℕ) → 0 < d → 0 < d ^ k
pow-pos d zero p = rw (pow-zero d) (omega arith)
pow-pos d (suc k) p = rw (pow-suc d k) (mul-pos (pow-pos d k p) p)

power_grows : (x n d k : ℕ) → 0 < d → d ≤ n → x * n ^ k / d ^ k ≤ x * n ^ suc k / d ^ suc k
power_grows x n d k p h =
    rw (pow-suc n k, pow-suc d k, ← mul_assoc x (n ^ k) n)
      (quotient_grows (x * n ^ k) (d ^ k) n d (pow-pos d k p) p h)

capped_delay-suc :
    (k : ℕ) (c : RetryConfig)
    → 0 < c.multiplier.den
    → c.multiplier.den ≤ c.multiplier.num
    → capped_delay (suc k) c ≤ capped_delay (suc (suc k)) c
unfolding capped_delay
capped_delay-suc k c p h =
    let now : suc k - 1 ≡ k = omega arith in
    let then : suc (suc k) - 1 ≡ suc k = omega arith in
    rw (now, then)
      (omega (arith, power_grows c.initial_delay c.multiplier.num c.multiplier.den k p h))

-- With no jitter and a multiplier of at least 1 a later attempt waits no less.
pub backoff_delay_mono :
    (k : ℕ) (c : RetryConfig) (rand : Fraction)
    → (c.jitter == "full") ≡ false
    → 0 < c.multiplier.den
    → c.multiplier.den ≤ c.multiplier.num
    → backoff_delay (suc k) c rand ≤ backoff_delay (suc (suc k)) c rand
unfolding backoff_delay
backoff_delay_mono k c rand j p h = rw j (capped_delay-suc k c p h)
