-- ===== src/Retry/Terminates.antt =====
-- The loop ends, and how often it calls the operation.
use dbkit_sql.Prelude.{
  ℕ, zero, suc, ◌+◌, ◌-◌, ◌≤◌, ◌<◌, max, Option, true, false, ◌≡◌, refl, arith, is_some, [], ◌⊎◌,
}
use dbkit_sql.Errors.{DatabaseError}
use dbkit_sql.Circuit.{CircuitBreaker}
use dbkit_sql.Policies.{should_retry, is_idempotent}
use dbkit_sql.Policies.Eligibility.{should_retry_iff, writes}
use dbkit_sql.Retry.{Attempt, Request, loop, run_with_retries, gate}
use dbkit_sql.Retry.Rules.{MaySleep, pass-rule, loop-induction}

-- A sleep leaves an attempt to make.
sleep-lt-attempts :
    {V : Type 0} (r : Request) (n : ℕ) (a : Attempt V) (d : ℕ) (e : DatabaseError)
    → MaySleep r n a d e
    → n < r.retry.attempts
sleep-lt-attempts r n a d e m = ((should_retry_iff e r.query r.retry n r.override).0 m.eligible).0

unsafe-ineligible :
    (r : Request) (n : ℕ) (e : DatabaseError)
    → should_retry e r.query r.retry n r.override ≡ true
    → writes r.query ≡ true
    → (is_idempotent r.query r.override ≡ false) ⊎ (r.retry.retry_writes ≡ false)
    → ⊥
unsafe-ineligible r n e h w u =
    ground (arith, (should_retry_iff e r.query r.retry n r.override).0 h)

module _ {V : Type 0} (r : Request) (env : ℕ → Attempt V) where
  loop_total :
      (fuel n : ℕ) (b : Option CircuitBreaker)
      → r.retry.attempts ≤ n + fuel
      → is_some (loop (suc fuel) r env n b).result ≡ true
  unfolding loop
  loop_total zero n b h =
      pass-rule r env n (λ x. is_some x.result ≡ true) (λ x. Unit) (λ b'. refl) (λ o b' p. refl)
        (λ d e rest m q. absurd (omega (arith, sleep-lt-attempts r n (env n) d e m)))
        (gate (env n).started_at b) _ (λ b'. tt)
  loop_total (suc fuel) n b h =
      pass-rule r env n (λ x. is_some x.result ≡ true) (λ x. is_some x.result ≡ true) (λ b'. refl)
        (λ o b' p. refl) (λ d e rest m q. q) (gate (env n).started_at b) _
        (λ b'. loop_total fuel (suc n) b' (omega arith))

  -- Whatever the operation does, whatever the clock shows and whatever breaker there is, a run ends
  -- with a value, an error or an escaped exception: its fuel does not run out.
  pub run_with_retries_total :
      (b : Option CircuitBreaker) → is_some (run_with_retries r env b).result ≡ true
  unfolding run_with_retries
  run_with_retries_total b = loop_total r.retry.attempts 1 b (omega arith)

  loop_calls :
      (fuel n : ℕ) (b : Option CircuitBreaker)
      → (loop fuel r env n b).calls ≤ max (suc r.retry.attempts - n) 1
  loop_calls =
      loop-induction r env (λ n x. x.calls ≤ max (suc r.retry.attempts - n) 1) (λ n b. omega arith)
        (λ n b. omega arith) (λ n o b p. omega arith)
        (λ n d e rest m q. omega (arith, sleep-lt-attempts r n (env n) d e m))

  -- The operation is called at most `attempts` times, or once if no attempts are allowed.
  pub run_with_retries_calls :
      (b : Option CircuitBreaker) → (run_with_retries r env b).calls ≤ max r.retry.attempts 1
  unfolding run_with_retries
  run_with_retries_calls b = omega (arith, loop_calls (suc r.retry.attempts) 1 b)

  -- A write that is not idempotent, or for which writes are not retried, is called at most once and
  -- nothing is slept, whatever error it meets.
  pub unsafe_write_once :
      (b : Option CircuitBreaker)
      → writes r.query ≡ true
      → (is_idempotent r.query r.override ≡ false) ⊎ (r.retry.retry_writes ≡ false)
      → ((run_with_retries r env b).calls ≤ 1) × ((run_with_retries r env b).sleeps ≡ [])
  unfolding run_with_retries
  unsafe_write_once b w u =
      loop-induction r env (λ n x. (x.calls ≤ 1) × (x.sleeps ≡ [])) (λ n b. (omega arith, refl))
        (λ n b. (omega arith, refl)) (λ n o b p. (omega arith, refl))
        (λ n d e rest m q. absurd (unsafe-ineligible r n e m.eligible w u)) (suc r.retry.attempts) 1
        b
