-- ===== src/Executor/Examples.antt =====
-- The theorems on scopes applied to a write whose commit breaks, and those on the limiter to two operations.
use dbkit_sql.Prelude.{
  ◌≡◌, refl, ◌≤◌, ℕ, String, none, some, true, false, ok, [], ◌∷◌, ◌⊎◌, string_eq,
}
use dbkit_sql.Prelude.Dict.{get, set}
use dbkit_sql.Errors.{database_error, make, no_context}
use dbkit_sql.Errors.Classify.{
  Raised, database, raw, not_sqlalchemy, absent, missing, is_connection_error,
}
use dbkit_sql.Config.{ConcurrencyConfig}
use dbkit_sql.Config.Samples.{plain_retry}
use dbkit_sql.Executor.{new_limiter}
use dbkit_sql.Executor.Limiter.{
  System, Move, enters, Moves, stays, more, Reach, starts, next, begins_attempt, begins_bulk,
  bulk_tiers, begin_operation, enter_tier,
}
use dbkit_sql.Executor.Limiter.Slots.{IsBalanced, Reach-IsBalanced}
use dbkit_sql.Executor.Limiter.Progress.{count_moves, work, Reach-drains}
use dbkit_sql.Retry.{Request, raised}
use dbkit_sql.Executor.Resilience.{tiers, Circumstances, attempt, execute_with_resilience}
use dbkit_sql.Executor.Resilience.Commit.{broken_commit_once}
use dbkit_sql.Connection.{closes}
use dbkit_sql.Transaction.{no_connection}
use dbkit_sql.Executor.Scope.{Target, World, scope, unknown_error}
use dbkit_sql.Executor.Release.{scope-closes_once}

abbrev failure : Raised
failure = database (make database_error "broken" none no_context)

abbrev world : World
world = record { connects = none; commits = some failure; rolls_back = some failure; closes = none }

abbrev target : Target
target = record { database = "main"; shard_id = "default"; role = "primary"; query_name = "adhoc" }

abbrev unchanged : String → String
unchanged s = s

scope-closes_once_example : closes (scope unchanged target world true none no_connection).0.log ≡ 1
scope-closes_once_example = scope-closes_once unchanged target world true none refl

abbrev lost : Raised
lost = raw (record {
  is_timeout = false;
  is_os_error = true;
  is_cancellation = false;
  sqlalchemy = not_sqlalchemy;
  own = record { sqlstate = absent; pgcode = absent; diagnostics = missing };
  orig = none;
  connection_invalidated = false;
  message = "connection reset";
})

-- Every attempt returns 7, and the connection breaks while it commits.
abbrev circumstances : ℕ → Circumstances ℕ
circumstances n = record {
  started_at = n;
  refused_by = none;
  world = record { connects = none; commits = some lost; rolls_back = none; closes = none };
  body = ok 7;
  reported_at = n;
  emitted_at = n;
  rand = record { num = 1; den = 2 };
  deadline_at = n;
  elapsed_at = n;
}

abbrev request : Request
request = record {
  query = none;
  retry = plain_retry;
  override = some true;
  deadline = none;
  context = no_context;
  began = 0;
}

broken_commit_once_example :
    (attempt unchanged target true (circumstances 1) ≡ raised (unknown_error unchanged target))
    × ((execute_with_resilience unchanged target true request circumstances none).calls ≤ 1)
    × ((execute_with_resilience unchanged target true request circumstances none).sleeps ≡ [])
unfolding is_connection_error
broken_commit_once_example =
    broken_commit_once unchanged target request circumstances none 7 lost refl refl refl refl refl
      refl

-- At most one operation on the database at a time, and one bulk write.
abbrev config : ConcurrencyConfig
config = record {
  database = some 1;
  reads = none;
  writes = none;
  bulk_writes = some 1;
  expensive_queries = none;
}

abbrev two_begun : System
two_begun = record {
  limiter = new_limiter config;
  operations = begin_operation (tiers none) ∷ begin_operation bulk_tiers ∷ [];
}

two_begun-Reach : Reach config two_begun
two_begun-Reach = next (next starts (begins_bulk refl)) (begins_attempt none refl)

Reach-IsBalanced_example : IsBalanced config two_begun
Reach-IsBalanced_example = Reach-IsBalanced config two_begun two_begun-Reach

-- The bulk write takes the slot of the database.
abbrev one_entered : System
unfolding new_limiter bulk_tiers
one_entered = record {
  limiter = set (new_limiter config) "database" 0;
  operations =
      begin_operation (tiers none) ∷ record { held = "database" ∷ []; wanted = "bulk" ∷ [] } ∷ [];
}

first_move : Moves one_entered two_begun
unfolding enter_tier bulk_tiers new_limiter tiers one_entered get
first_move =
    more
      (enters (begin_operation (tiers none) ∷ []) [] (begin_operation bulk_tiers) "database"
        ("bulk" ∷ []) ("database" ∷ []) (set (new_limiter config) "database" 0) refl refl refl refl)
      stays

Reach-drains_example :
    (count_moves first_move ≤ work two_begun.operations)
    × (((one_entered.operations ≡ [])
          × ((t : String) → get one_entered.limiter t ≡ get (new_limiter config) t))
        ⊎ ((v : System) × Move one_entered v))
Reach-drains_example = Reach-drains config two_begun one_entered first_move two_begun-Reach
