-- ===== src/Executor/Resilience.antt =====
-- `execute_with_resilience` of _async/executor.py: the retry loop around attempts that take their slots of
-- the concurrency limiter, open a scope and run the operation in it. `Circumstances` is what one attempt
-- meets: whether a tier refuses it in time, the calls on its connection, and what the operation does. It
-- begins where the engine, the breaker and the limiter are found (`entry`, `breaker_for`, `limiter_for`), and
-- a cancellation while an attempt waits for a slot is not modelled.
pub mod Commit
use dbkit_sql.Prelude.{
  ℕ, String, Option, none, some, Bool, true, false, List, [], ◌∷◌, Result, ok, err, Fraction,
  if◌then◌else◌,
}
use dbkit_sql.Errors.{DatabaseError, overloaded, make, no_context}
use dbkit_sql.Errors.Classify.{Raised, database, raw}
use dbkit_sql.Circuit.{CircuitBreaker}
use dbkit_sql.Query.{Query, is_write}
use dbkit_sql.Retry.{Attempt, Outcome, Request, Run, returned, raised, escaped, run_with_retries}
use dbkit_sql.Transaction.{no_connection}
use dbkit_sql.Executor.Scope.{Target, World, scope}

-- The tiers whose slots an attempt takes, in this order.
unfoldable pub tiers : Option Query → List String
tiers none = "database" ∷ "reads" ∷ []
tiers (some q) =
    "database"
    ∷ (if is_write q then "writes" else "reads")
    ∷ (if q.expensive then "expensive" ∷ [] else [])

pub record Circumstances (V : Type 0) : Type 0 where
  pub started_at : ℕ
  pub refused_by : Option String
  pub world : World
  pub body : Result Raised V
  pub reported_at : ℕ
  pub emitted_at : ℕ
  pub rand : Fraction
  pub deadline_at : ℕ
  pub elapsed_at : ℕ

abbrev pub error_of : {V : Type 0} → Result Raised V → Option Raised
error_of (ok v) = none
error_of (err e) = some e

-- The retry loop handles a DatabaseError only; whatever else the scope raises escapes it.
abbrev pub finished : {V : Type 0} → Result Raised V → Result Raised (Unit {0}) → Outcome V
finished body (err (database e)) = raised e
finished body (err (raw r)) = escaped
finished (ok v) (ok u) = returned v
finished (err e) (ok u) = escaped

module _ (sanitize : String → String) (t : Target) (commits : Bool) {V : Type 0} where
  unfoldable pub attempt : Circumstances V → Outcome V
  unfolding scope no_connection
  attempt c = by_limiter c.refused_by
    where
      by_limiter : Option String → Outcome V
      by_limiter (some tier) = raised (make overloaded "concurrency limit reached" none no_context)
      by_limiter none =
          finished c.body (scope sanitize t c.world commits (error_of c.body) no_connection).1

  abbrev pub as_attempt : Circumstances V → Attempt V
  as_attempt c = record {
    started_at = c.started_at;
    outcome = attempt c;
    reported_at = c.reported_at;
    emitted_at = c.emitted_at;
    rand = c.rand;
    deadline_at = c.deadline_at;
    elapsed_at = c.elapsed_at;
  }

  unfoldable pub execute_with_resilience :
      Request → (ℕ → Circumstances V) → Option CircuitBreaker → Run V
  unfolding attempt run_with_retries
  execute_with_resilience r env b = run_with_retries r (λ n. as_attempt (env n)) b
