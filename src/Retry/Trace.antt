-- ===== src/Retry/Trace.antt =====
-- Where the result of a run comes from.
use native.Mathlib.Nat.{add-zero, add-suc, suc-add}
use dbkit_sql.Prelude.{
  ℕ, suc, ◌+◌, Option, none, some, true, ◌≡◌, refl, sym, ap, ◌⊎◌, inl, inr, List, [], ◌∷◌, arith,
  is_some,
}
use dbkit_sql.Errors.{DatabaseError}
use dbkit_sql.Circuit.{CircuitBreaker}
use dbkit_sql.Policies.{should_retry}
use dbkit_sql.Retry.{
  Attempt, Request, Run, Sleep, raised, circuit_error, loop, run_with_retries, after_sleep,
}
use dbkit_sql.Retry.Rules.{MaySleep, loop-induction}
use dbkit_sql.Retry.Terminates.{run_with_retries_total}

module _ {V : Type 0} (r : Request) (env : ℕ → Attempt V) where
  -- The result of a run from attempt `n` on: none, the rejection by the breaker, or what the last
  -- call of the operation did.
  pub data Source (n : ℕ) (x : Run V) : Type 0 where
    no_fuel : x.result ≡ none → Source n x
    rejected : x.result ≡ some (raised (circuit_error r)) → Source n x
    last_call : (k : ℕ) → x.calls ≡ suc k → x.result ≡ some (env (n + k)).outcome → Source n x

  sleep-Source :
      (n d : ℕ) (e : DatabaseError) (rest : Run V)
      → MaySleep r n (env n) d e
      → Source (suc n) rest
      → Source n (after_sleep n d rest)
  sleep-Source n d e rest m (no_fuel p) = no_fuel p
  sleep-Source n d e rest m (rejected p) = rejected p
  sleep-Source n d e rest m (last_call k c p) =
      last_call (suc k) (ap suc c) (rw add-suc (rw suc-add at p))

  loop-Source : (fuel n : ℕ) (b : Option CircuitBreaker) → Source n (loop fuel r env n b)
  loop-Source =
      loop-induction r env Source (λ n b. no_fuel refl) (λ n b. rejected refl)
        (λ n o b p. last_call 0 refl (rw add-zero (ap some (sym p)))) sleep-Source

  abbrev pub Explained : Run V → Type 0
  Explained x =
      (x.result ≡ some (raised (circuit_error r)))
      ⊎ ((k : ℕ) × (x.calls ≡ suc k) × (x.result ≡ some (env (suc k)).outcome))

  explained : (x : Run V) → is_some x.result ≡ true → Source 1 x → Explained x
  explained x t (no_fuel p) = ground arith
  explained x t (rejected p) = inl p
  explained x t (last_call k c p) = let e : 1 + k ≡ suc k = omega arith in inr (k, c, rw e at p)

  -- A run ends either because the breaker rejected an attempt, with the circuit-open error, or with
  -- exactly what the last call of the operation did, be it a value, an error or an escape.
  pub run_result : (b : Option CircuitBreaker) → Explained (run_with_retries r env b)
  unfolding run_with_retries
  run_result b =
      explained (loop (suc r.retry.attempts) r env 1 b) (run_with_retries_total r env b)
        (loop-Source (suc r.retry.attempts) 1 b)

  -- The sleeps follow attempts `n`, `n + 1` and so on, each of which failed with an error that may be
  -- retried.
  abbrev pub Retried : ℕ → List Sleep → Type 0
  Retried n [] = Unit
  Retried n (s ∷ ss) =
      (s.attempt ≡ n)
      × ((e : DatabaseError) × ((env n).outcome ≡ raised e)
          × (should_retry e r.query r.retry n r.override ≡ true))
      × Retried (suc n) ss

  -- A run goes on only after a failure that may be retried: its sleeps stand after attempts 1, 2, ...
  -- in turn, and each of those attempts raised an error for which `should_retry` holds.
  pub run_retries_eligible :
      (b : Option CircuitBreaker) → Retried 1 (run_with_retries r env b).sleeps
  unfolding run_with_retries
  run_retries_eligible b =
      loop-induction r env (λ n x. Retried n x.sleeps) (λ n b. tt) (λ n b. tt) (λ n o b p. tt)
        (λ n d e rest m q. (refl, (e, m.failed, m.eligible), q)) (suc r.retry.attempts) 1 b
