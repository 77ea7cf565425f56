-- ===== src/Database/Examples.antt =====
-- The theorems on dynamic databases applied to one static and a few dynamic ones.
use dbkit_sql.Prelude.{
  arith, ◌+ℤ◌, ◌≡◌, refl, ℕ, String, Option, none, some, Bool, true, false, List, [], ◌∷◌, ok,
  string_eq, Result, All, ◌↔◌,
}
use dbkit_sql.Prelude.Dict.{get, Distinct}
use dbkit_sql.Errors.{DatabaseError, database_error, make, no_context}
use dbkit_sql.Errors.Classify.{Raised, database}
use dbkit_sql.Config.{
  DatabaseConfig, DbkitConfig, PoolConfig, TargetConfig, max_connections_per_process,
  database_max_connections,
}
use dbkit_sql.Config.Samples.{plain_config, main_database, main_target as main_server, scheme}
use dbkit_sql.Connection.{is_cancellation}
use dbkit_sql.Config.Tree.{Entries, entry, no_entries, mapping, text, Numbers, lookup, truthy, flag}
use dbkit_sql.Config.Sections.{unbounded, default_budget}
use dbkit_sql.Config.Loading.{
  from_dict, build_config, databases_of, database_fields, target_fields, replicas_from,
  default_defaults,
}
use dbkit_sql.Config.Loading.Loads.{HasDatabases, from_dict-flag_text}
use dbkit_sql.Database.FromDict.{from_dict-InBudget}
use dbkit_sql.Routing.{DatabaseTarget, read}
use dbkit_sql.Database.{new_database, keys}
use dbkit_sql.Database.Events.{Event, registers, ensures, unregisters, run}
use dbkit_sql.Database.Target.{resolve_target}
use dbkit_sql.Database.Replicas.{Served, run-resolves-Served}
use dbkit_sql.Database.Lifecycle.{
  TargetHealth, required_names, health, require_ready, consistency_scope,
}
use dbkit_sql.Database.Lifecycle.Ready.{Told, all_healthy, require_ready_iff}
use dbkit_sql.Database.Lifecycle.Scopes.{
  Use, done, resolves, opens, FromPrimary, perform, scope-reads_primary,
}
use dbkit_sql.Database.Dynamic.{Inv}
use dbkit_sql.Database.Cap.{run-new_database-Inv}
use dbkit_sql.Database.Lifetime.{InBudget, run-validated-InBudget}
use dbkit_sql.Policies.{validate as validate_retry}
use dbkit_sql.Config.{validate, validate_database, enforce_database_budget, enforce_process_budget}

abbrev creates_seven : TargetConfig → PoolConfig → Option ℕ
creates_seven t p = some 7

abbrev never : DatabaseConfig → DatabaseConfig → Bool
never a b = false

abbrev events : List Event
events =
    registers 1 "tenant-1" main_database none
    ∷ ensures 2 "tenant-2" main_database (some true)
    ∷ unregisters "tenant-1"
    ∷ []

no_repeats : Distinct plain_config.databases
unfolding get
no_repeats = (refl, tt)

run-new_database-Inv_example :
    Inv plain_config
      (keys plain_config.databases)
      (run scheme creates_seven never (new_database plain_config) events)
run-new_database-Inv_example =
    run-new_database-Inv scheme creates_seven never plain_config events no_repeats

abbrev main_target : DatabaseTarget ℕ
main_target = record { database = "main"; role = read; shard_key = none }

abbrev single : String → ℕ → Result DatabaseError String
single n k = ok "default"

run-validated-InBudget_example :
    InBudget (run scheme creates_seven never (new_database plain_config) events)
unfolding validate validate_retry validate_database enforce_database_budget enforce_process_budget
    database_max_connections max_connections_per_process ◌+ℤ◌
run-validated-InBudget_example =
    run-validated-InBudget scheme creates_seven never plain_config events refl (omega arith, tt)
      (omega arith, (omega arith, (tt, tt)))

-- A database with one replica.
abbrev replicated : DatabaseConfig
replicated = record main_database { replicas = record main_server { name = "r1" } ∷ [] }

abbrev replicated_config : DbkitConfig
replicated_config = record plain_config { databases = ("main", replicated) ∷ [] }

run-resolves-Served_example : Served (
    resolve_target single false main_target
      (run scheme creates_seven never (new_database replicated_config) events))
unfolding get
run-resolves-Served_example =
    run-resolves-Served single scheme creates_seven never replicated_config events false main_target
      (refl, tt)

-- A scope in a scope, with a read in each.
abbrev task : Use ℕ
task = resolves main_target (opens "primary" (resolves main_target done) done)

scope-reads_primary_example :
    let (m', (s', answers)) =
      consistency_scope "primary"
        (λ k. perform single task k (new_database replicated_config))
        none in
    (m' ≡ none) × (s' ≡ new_database replicated_config) × All FromPrimary answers
scope-reads_primary_example =
    scope-reads_primary single "primary" task none (new_database replicated_config)

abbrev unchanged : String → String
unchanged s = s

abbrev refused : Raised
refused = database (make database_error "refused" none no_context)

refused_calm : is_cancellation refused ≡ false
unfolding is_cancellation
refused_calm = refl

require_ready_iff_example :
    let s = new_database plain_config in
    let report = health unchanged scheme creates_seven 3 (λ n. some refused) s in
    let answer = require_ready unchanged scheme creates_seven 3 (λ n. some refused) s in
    (ts : List TargetHealth) × (report.1
      ≡ ok (record { live = true; ready = all_healthy ts; targets = ts }))
    × Told scheme creates_seven 3 (λ n. some refused) (required_names plain_config.databases) s ts
    × ((answer.1 ≡ ok tt) ↔ (all_healthy ts ≡ true))
unfolding new_database
require_ready_iff_example =
    require_ready_iff unchanged scheme creates_seven 3 (λ n. some refused)
      (λ n e h. cc (h, refused_calm)) (new_database plain_config)

-- No number stands in the tree below.
abbrev no_numbers : Numbers
no_numbers = record {
  int = λ n. none;
  seconds = λ n. none;
  milliseconds = λ n. none;
  float = λ n. none;
}

abbrev replica_name : ℕ → String
replica_name i = "replica"

-- One database, and a flag that came from the environment.
abbrev tree : Entries
tree =
    entry "databases"
      (mapping (
        entry "main"
          (mapping (entry "primary" (mapping (entry "url" (text "main") no_entries)) no_entries))
          no_entries))
      (entry "evict_lru_engines" (text "false") no_entries)

abbrev loaded_database : DatabaseConfig
loaded_database = record {
  primary = record { url = "main"; name = "primary"; required = true; weight = 1; pool = none };
  replicas = [];
  concurrency = unbounded;
  connection_budget = default_budget;
}

abbrev loaded_config : DbkitConfig
loaded_config = record {
  databases = ("main", loaded_database) ∷ [];
  environment = "default";
  defaults = default_defaults no_numbers;
  connection_budget = default_budget;
  max_engines = none;
  max_databases = none;
  evict_lru_engines = true;
}

accepts_tree : from_dict no_numbers scheme replica_name tree ≡ ok loaded_config
unfolding from_dict build_config lookup truthy flag databases_of database_fields target_fields
    replicas_from validate validate_retry validate_database enforce_database_budget
    enforce_process_budget ◌+ℤ◌
accepts_tree = refl

from_dict-InBudget_example :
    HasDatabases no_numbers scheme replica_name tree loaded_config
    × InBudget (run scheme creates_seven never (new_database loaded_config) events)
unfolding database_max_connections ◌+ℤ◌
from_dict-InBudget_example =
    from_dict-InBudget no_numbers scheme replica_name creates_seven never tree loaded_config events
      accepts_tree (omega arith, tt) (omega arith, (omega arith, (tt, tt)))

from_dict-flag_text_example : loaded_config.evict_lru_engines ≡ true
unfolding lookup
from_dict-flag_text_example =
    from_dict-flag_text no_numbers scheme replica_name tree loaded_config "false" refl (λ e. cc)
      accepts_tree
