-- ===== src/Retry/Breaker.antt =====
-- What a run does to its breaker, and what a breaker does to a run.
use dbkit_sql.Prelude.{ℕ, suc, ◌+◌, ◌≤◌, some, false, ◌≡◌, refl, ◌⊎◌, inl, inr, [], arith}
use dbkit_sql.Errors.{DatabaseError}
use dbkit_sql.Circuit.{CircuitBreaker, half_open, allow, counts_as_failure}
use dbkit_sql.Policies.{should_retry}
use dbkit_sql.Retry.{
  Attempt, Request, raised, escaped, circuit_error, gate, report_error, next_delay, loop,
  run_with_retries,
}

-- A HALF_OPEN breaker whose trials are used up.
pub record IsExhausted (b : CircuitBreaker) : Type 0 where
  pub trying : b.current ≡ half_open
  pub used_up : b.half_open_max_calls ≤ b.half_open_calls

gate-IsExhausted :
    (now : ℕ) (b : CircuitBreaker) → IsExhausted b → gate now (some b) ≡ (some b, false)
unfolding gate allow
gate-IsExhausted now b h = ground arith

module _ {V : Type 0} (r : Request) (env : ℕ → Attempt V) where
  -- With a HALF_OPEN breaker whose trials are used up a run calls nothing, ends with the circuit-open
  -- error and leaves the breaker as it was, whatever the clock shows.
  pub exhausted_rejects :
      (b : CircuitBreaker)
      → IsExhausted b
      → run_with_retries r env (some b) ≡ record {
        result = some (raised (circuit_error r));
        breaker = some b;
        calls = 0;
        sleeps = [];
      }
  unfolding run_with_retries
  exhausted_rejects b h = rw (gate-IsExhausted (env 1).started_at b h, run_with_retries, loop) refl

  -- If a HALF_OPEN breaker has one trial left, and the call that takes it ends with an error that
  -- neither counts as a failure nor may be retried, or escapes, the run reports nothing to the breaker,
  -- whose trials are then used up.
  pub trial_leaks :
      (b : CircuitBreaker)
      → b.current ≡ half_open
      → suc b.half_open_calls ≡ b.half_open_max_calls
      → ((e : DatabaseError) × ((env 1).outcome ≡ raised e)
          × (counts_as_failure e ≡ false)
          × (should_retry e r.query r.retry 1 r.override ≡ false))
        ⊎ ((env 1).outcome ≡ escaped)
      → (b' : CircuitBreaker) × ((run_with_retries r env (some b)).breaker ≡ some b')
        × IsExhausted b'
  unfolding run_with_retries gate allow report_error next_delay
  trial_leaks b k h (inl (e, o, c, s)) =
      (record b { half_open_calls = b.half_open_calls + 1 }, ground arith, ground arith)
  trial_leaks b k h (inr o) =
      (record b { half_open_calls = b.half_open_calls + 1 }, ground arith, ground arith)
