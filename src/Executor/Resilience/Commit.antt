-- ===== src/Executor/Resilience/Commit.antt =====
-- From the broken connection to the caller: an auto-commit that may have happened is not repeated.
use dbkit_sql.Prelude.{ℕ, ◌≤◌, String, Option, none, some, true, ◌≡◌, refl, [], ok, err}
use dbkit_sql.Errors.{make}
use dbkit_sql.Errors.Classify.{Raised, database, is_connection_error}
use dbkit_sql.Circuit.{CircuitBreaker}
use dbkit_sql.Connection.{call, suppress}
use dbkit_sql.Retry.{Request, raised}
use dbkit_sql.Retry.Unknown.{unknown_once}
use dbkit_sql.Transaction.{no_connection}
use dbkit_sql.Executor.Scope.{Target, World, scope, acquire, auto_commit, end_block, unknown_error}
use dbkit_sql.Executor.Resilience.{Circumstances, attempt, as_attempt, execute_with_resilience}

module _ (sanitize : String → String) (t : Target) where
  broken_scope :
      (w : World) (x : Raised)
      → w.connects ≡ none
      → w.commits ≡ some x
      → is_connection_error x ≡ true
      → w.closes ≡ none
      → (scope sanitize t w true none no_connection).1 ≡ err (database (unknown_error sanitize t))
  unfolding scope acquire auto_commit end_block call suppress
  broken_scope w x c k b l = simp (c, k, l) (simp b refl)

module _ (sanitize : String → String) (t : Target) {V : Type 0} where
  broken_attempt :
      (c : Circumstances V) (v : V) (x : Raised)
      → c.refused_by ≡ none
      → c.body ≡ ok v
      → c.world.connects ≡ none
      → c.world.commits ≡ some x
      → is_connection_error x ≡ true
      → c.world.closes ≡ none
      → attempt sanitize t true c ≡ raised (unknown_error sanitize t)
  unfolding attempt
  broken_attempt c v x r o k m b l = rw (r, o, broken_scope sanitize t c.world x k m b l) refl

  -- Take an auto-committed operation whose first attempt is refused by no limiter, gets a connection and ends
  -- well. When the connection breaks while that attempt commits, and closing it afterwards succeeds, the
  -- attempt ends with the commit-unknown error, and the operation is not called again, nor is anything
  -- slept, whatever the retry configuration, the idempotence and the circuit breaker are.
  pub broken_commit_once :
      (r : Request) (env : ℕ → Circumstances V) (b : Option CircuitBreaker) (v : V) (x : Raised)
      → (env 1).refused_by ≡ none
      → (env 1).body ≡ ok v
      → (env 1).world.connects ≡ none
      → (env 1).world.commits ≡ some x
      → is_connection_error x ≡ true
      → (env 1).world.closes ≡ none
      → let run = execute_with_resilience sanitize t true r env b in
        (attempt sanitize t true (env 1) ≡ raised (unknown_error sanitize t))
        × (run.calls ≤ 1)
        × (run.sleeps ≡ [])
  unfolding execute_with_resilience
  broken_commit_once r env b v x f o k m c l =
      let ended = broken_attempt (env 1) v x f o k m c l in
      let once =
        unknown_once r (λ n. as_attempt sanitize t true (env n)) b (unknown_error sanitize t) ended
          (unfold unknown_error make in refl) in
      (ended, once.0, once.1)
