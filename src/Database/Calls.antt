-- ===== src/Database/Calls.antt =====
-- The query methods of AsyncDatabase (_async/database.py): each runs one method of a connection scope (Fetch)
-- in `execute_with_resilience` (Executor/Resilience), once for each attempt. `frames` is what the attempts
-- meet apart from the operation, and `server` what they are answered. `execute_many` has no retries.
pub mod Answers
mod Examples
use dbkit_sql.Prelude.{ℕ, ℤ, String, Option, none, some, Bool, true, false, List, Result, ok, err}
use dbkit_sql.Prelude.Dict.{Dict}
use dbkit_sql.Errors.{Context}
use dbkit_sql.Errors.Classify.{Raised, database}
use dbkit_sql.Circuit.{CircuitBreaker}
use dbkit_sql.Query.{QueryArgument, coerce_statement, as_query}
use dbkit_sql.Connection.{Connection, Awaited, classified}
use dbkit_sql.Retry.{Request, Run}
use dbkit_sql.Transaction.{no_connection}
use dbkit_sql.Mapping.{MapTo, Mapped}
use dbkit_sql.Fetch.{
  ConnectionScope, ResultMethods, fetch_all as scope_fetch_all, fetch_one as scope_fetch_one,
  fetch_optional as scope_fetch_optional, fetch_value as scope_fetch_value,
  fetch_values as scope_fetch_values, execute as scope_execute,
}
use dbkit_sql.Executor.Scope.{Target, World, scope}
use dbkit_sql.Executor.Resilience.{Circumstances, error_of, execute_with_resilience}

pub record Server (C : Type 0) : Type 0 where
  pub settings : ℕ → String → Option Raised
  pub rows : ℕ → Result Raised (List (Dict String C))
  pub row_counts : ℕ → Result Raised ℤ

abbrev pub with_body : {V : Type 0} → Circumstances (Unit {0}) → Result Raised V → Circumstances V
with_body c body = record {
  started_at = c.started_at;
  refused_by = c.refused_by;
  world = c.world;
  body = body;
  reported_at = c.reported_at;
  emitted_at = c.emitted_at;
  rand = c.rand;
  deadline_at = c.deadline_at;
  elapsed_at = c.elapsed_at;
}

module _ (sanitize : String → String) (t : Target) (held : ConnectionScope) (r : Request)
    (frames : ℕ → Circumstances (Unit {0})) (b : Option CircuitBreaker) where
  -- The attempts of one call.
  abbrev pub attempts_of : {V : Type 0} → (ℕ → Result Raised V) → ℕ → Circumstances V
  attempts_of bodies n = with_body (frames n) (bodies n)

  unfoldable pub run_call : {V : Type 0} → Bool → (ℕ → Result Raised V) → QueryArgument → Run V
  unfolding execute_with_resilience
  run_call commits bodies arg =
      execute_with_resilience sanitize t commits (record r { query = as_query arg })
        (attempts_of bodies) b

  module _ {C V : Type 0} (m : ResultMethods (Dict String C) C) (server : Server C) where
    unfoldable pub fetch_all : MapTo C V → QueryArgument → Run (List (Mapped C V))
    unfolding run_call scope_fetch_all
    fetch_all map_to arg =
        run_call false
          (λ n. (scope_fetch_all sanitize held m (server.settings n) (server.rows n) map_to arg).1)
          arg

    unfoldable pub fetch_one : MapTo C V → QueryArgument → Run (Mapped C V)
    unfolding run_call scope_fetch_one
    fetch_one map_to arg =
        run_call false
          (λ n. (scope_fetch_one sanitize held m (server.settings n) (server.rows n) map_to arg).1)
          arg

    unfoldable pub fetch_optional : MapTo C V → QueryArgument → Run (Option (Mapped C V))
    unfolding run_call scope_fetch_optional
    fetch_optional map_to arg =
        run_call false
          (λ n.
            (scope_fetch_optional sanitize held m (server.settings n) (server.rows n) map_to arg).1)
          arg

  module _ {C : Type 0} (m : ResultMethods (Dict String C) C) (server : Server C) where
    unfoldable pub fetch_value : QueryArgument → Run C
    unfolding run_call scope_fetch_value
    fetch_value arg =
        run_call false
          (λ n. (scope_fetch_value sanitize held m (server.settings n) (server.rows n) arg).1) arg

    unfoldable pub fetch_values : QueryArgument → Run (List C)
    unfolding run_call scope_fetch_values
    fetch_values arg =
        run_call false
          (λ n. (scope_fetch_values sanitize held m (server.settings n) (server.rows n) arg).1) arg

    unfoldable pub execute : QueryArgument → Run ℤ
    unfolding run_call scope_execute
    execute arg =
        run_call true
          (λ n. (scope_execute sanitize held (server.settings n) (server.row_counts n) arg).1) arg

abbrev pub with_value : {V : Type 0} → Result Raised V → Awaited → Connection × Result Raised V
with_value body (c, ok u) = (c, body)
with_value body (c, err e) = (c, err e)

module _ (sanitize : String → String) (t : Target) where
  abbrev many_context : Context
  many_context = record {
    database_name = some t.database;
    shard_id = none;
    role = none;
    query_name = some t.query_name;
  }

  abbrev pub counted_rows : Result Raised ℤ → Result Raised ℤ
  unfolding classified
  counted_rows (ok n) = ok n
  counted_rows (err e) = err (classified sanitize many_context e)

  unfoldable pub execute_many :
      World → Result Raised ℤ → QueryArgument → Connection × Result Raised ℤ
  unfolding scope counted_rows no_connection coerce_statement
  execute_many w row_count arg = elim (coerce_statement arg) [
    | err e ↦ (no_connection, err (database e))
    | ok statement ↦
        let body = counted_rows row_count in
        with_value body (scope sanitize t w true (error_of body) no_connection)
  ]
