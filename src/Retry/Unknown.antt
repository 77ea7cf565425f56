-- ===== src/Retry/Unknown.antt =====
-- An operation whose outcome is unknown is not repeated.
use dbkit_sql.Prelude.{ℕ, ◌≤◌, Option, true, ◌≡◌, refl, [], arith}
use dbkit_sql.Errors.{DatabaseError}
use dbkit_sql.Circuit.{CircuitBreaker}
use dbkit_sql.Policies.Eligibility.{should_retry_iff}
use dbkit_sql.Retry.{Attempt, Request, raised, gate, loop, run_with_retries}
use dbkit_sql.Retry.Rules.{MaySleep, pass-rule}

module _ {V : Type 0} (r : Request) (env : ℕ → Attempt V) where
  no-sleep :
      (e x : DatabaseError) (d : ℕ)
      → (env 1).outcome ≡ raised e
      → e.transaction_state_unknown ≡ true
      → MaySleep r 1 (env 1) d x
      → ⊥
  no-sleep e x d o u m =
      let known = ((should_retry_iff x r.query r.retry 1 r.override).0 m.eligible).2 in
      cc (o, u, m.failed, known)

  -- If the first attempt ends with an error that leaves the outcome of its transaction unknown, a run
  -- makes no other and sleeps not at all.
  pub unknown_once :
      (b : Option CircuitBreaker) (e : DatabaseError)
      → (env 1).outcome ≡ raised e
      → e.transaction_state_unknown ≡ true
      → ((run_with_retries r env b).calls ≤ 1) × ((run_with_retries r env b).sleeps ≡ [])
  unfolding run_with_retries loop
  unknown_once b e o u =
      pass-rule r env 1 (λ x. (x.calls ≤ 1) × (x.sleeps ≡ [])) (λ x. Unit)
        (λ b'. (omega arith, refl)) (λ p b' q. (omega arith, refl))
        (λ d x rest m q. absurd (no-sleep e x d o u m)) (gate (env 1).started_at b) _ (λ b'. tt)
