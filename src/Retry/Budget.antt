-- ===== src/Retry/Budget.antt =====
-- How long a run sleeps: the caller's deadline, and the budget of backoff time.
use dbkit_sql.Prelude.{
  ℕ, suc, ◌+◌, ◌≤◌, ◌<◌, Option, some, ◌≡◌, refl, ◌⊎◌, inl, inr, List, [], ◌∷◌, All, arith,
}
use dbkit_sql.Errors.{DatabaseError}
use dbkit_sql.Circuit.{CircuitBreaker}
use dbkit_sql.Policies.{backoff_delay}
use dbkit_sql.Retry.{Attempt, Request, Run, Sleep, loop, run_with_retries, after_sleep}
use dbkit_sql.Retry.Rules.{MaySleep, loop-induction}

-- The time slept in all.
abbrev pub total : List Sleep → ℕ
total [] = 0
total (s ∷ ss) = s.delay + total ss

module _ {V : Type 0} (r : Request) (env : ℕ → Attempt V) where
  -- By the clock reading taken before it, no sleep of a run reaches the caller's deadline.
  pub sleeps_before_deadline :
      (b : Option CircuitBreaker) (deadline : ℕ)
      → r.deadline ≡ some deadline
      → All
          (λ s. (env s.attempt).deadline_at + s.delay < deadline)
          (run_with_retries r env b).sleeps
  unfolding run_with_retries
  sleeps_before_deadline b deadline e =
      loop-induction r env
        (λ n x. All (λ s. (env s.attempt).deadline_at + s.delay < deadline) x.sleeps) (λ n b. tt)
        (λ n b. tt) (λ n o b p. tt) (λ n d x rest m q. (m.in_time deadline e, q))
        (suc r.retry.attempts) 1 b

  -- What the monotonic clock and `sleep` guarantee: readings do not fall, and a sleep lasts at least
  -- as long as asked for.
  pub record IsHonest : Type 0 where
    pub begins : r.began ≤ (env 1).elapsed_at
    pub advances :
        (n : ℕ)
        → (env n).elapsed_at + backoff_delay n r.retry (env n).rand ≤ (env (suc n)).elapsed_at

  abbrev Fits : ℕ → Run V → Type 0
  Fits n x =
      (total x.sleeps ≡ 0) ⊎ ((env n).elapsed_at + total x.sleeps ≤ r.began + r.retry.maximum_total)

  sleep-Fits :
      IsHonest
      → (n d : ℕ) (e : DatabaseError) (rest : Run V) → MaySleep r n (env n) d e
      → Fits (suc n) rest
      → Fits n (after_sleep n d rest)
  sleep-Fits h n d e rest m (inl z) = inr (omega (arith, m.in_budget))
  sleep-Fits h n d e rest m (inr q) = inr (omega (arith, h.advances n, m.is_backoff))

  loop-Fits : IsHonest → (fuel n : ℕ) (b : Option CircuitBreaker) → Fits n (loop fuel r env n b)
  loop-Fits h =
      loop-induction r env Fits (λ n b. inl refl) (λ n b. inl refl) (λ n o b p. inl refl)
        (sleep-Fits h)

  -- On a clock whose readings do not fall, and with sleeps that last at least as long as asked for, the
  -- sleeps of a run add up to no more than `maximum_total_ms`, however many attempts are allowed.
  pub total_backoff_bounded :
      (b : Option CircuitBreaker)
      → IsHonest
      → total (run_with_retries r env b).sleeps ≤ r.retry.maximum_total
  unfolding run_with_retries
  total_backoff_bounded b h = omega (arith, h.begins, loop-Fits h (suc r.retry.attempts) 1 b)
