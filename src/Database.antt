-- ===== src/Database.antt =====
-- The facade AsyncDatabase of _async/database.py: routing, and the databases registered at run time. Each
-- operation is one step that runs to its end: the registration lock orders those that register, unregister
-- and evict, but the unchanged path of `ensure_database` takes no lock and can come between an eviction's
-- awaits, and a disposal there can fail or be cancelled; neither is modelled. The selector is the default RoundRobinReplicaSelector;
-- `shards` is the shard resolver, `same` is Python's `==` on database configurations, `scheme` and
-- `create` are those of the engine registry.
pub mod Target
pub mod Events
pub mod Dynamic
pub mod Eviction
pub mod Cap
pub mod Removal
pub mod Budget
pub mod Lifetime
pub mod FromDict
pub mod Calls
pub mod Replicas
pub mod Lifecycle
mod Examples
use dbkit_sql.Prelude.{
  ℕ, String, Option, none, some, Bool, true, false, List, [], ◌∷◌, ◌++◌, map, length, ltb, not,
  ◌==◌, string_eq, Result, ok, err, ◌>>◌, if◌then◌else◌, is_some, or_else, ◌&&◌,
}
use dbkit_sql.Prelude.Dict.{Dict, get, set, remove, has}
use dbkit_sql.Errors.{DatabaseError}
use dbkit_sql.Config.{
  DatabaseConfig, DbkitConfig, PoolConfig, TargetConfig, validate, validate_database,
  enforce_database_budget, enforce_process_budget,
}
use dbkit_sql.Routing.{
  DatabaseTarget, ResolvedRoute, primary, replica, raise_routing, wants_replica,
}
use dbkit_sql.Routing.RoundRobin.{RoundRobin, new, select, set_replicas}
use dbkit_sql.Engine.{AsyncEngineRegistry, EngineEntry, empty_registry, get_engine}
use dbkit_sql.Engine.Disposal.{dispose_all, dispose_database}
use dbkit_sql.Executor.{ResilientExecutor, new_executor, forget_database}

pub record AsyncDatabase : Type 0 where
  pub config : DbkitConfig
  pub registry : AsyncEngineRegistry
  pub executor : ResilientExecutor
  pub selector : RoundRobin
  pub static_databases : List String
  pub dynamic_lru : List String  -- oldest use first
  pub started : Bool

abbrev pub replica_names : DatabaseConfig → List String
replica_names db = map (λ r. r.name) db.replicas

abbrev pub names_of : Dict String DatabaseConfig → Dict String (List String)
names_of d = map (λ p. (p.0, replica_names p.1)) d

abbrev keys : Dict String DatabaseConfig → List String
keys d = map (λ p. p.0) d

-- The constructor.
unfoldable pub new_database : DbkitConfig → AsyncDatabase
unfolding new empty_registry new_executor
new_database c = record {
  config = c;
  registry = empty_registry;
  executor = new_executor;
  selector = new (names_of c.databases);
  static_databases = keys c.databases;
  dynamic_lru = [];
  started = false;
}

unfoldable pub member : String → List String → Bool
member n [] = false
member n (x ∷ xs) = let rest = member n xs in if x == n then true else rest

-- `d.pop(name, None)` on the keys of a dict
unfoldable pub without : String → List String → List String
without n [] = []
without n (x ∷ xs) = let rest = without n xs in if x == n then xs else x ∷ rest

-- `_touch_dynamic`
unfoldable pub touch_dynamic : String → AsyncDatabase → AsyncDatabase
unfolding member without
touch_dynamic n s =
    if member n s.static_databases
    then s
    else record s { dynamic_lru = without n s.dynamic_lru ++ n ∷ [] }

-- `_purge_database_state`
unfoldable pub purge : String → AsyncDatabase → AsyncDatabase
unfolding dispose_database forget_database
purge n s = record s {
  registry = (dispose_database n s.registry).0;
  executor = forget_database s.config.environment n s.executor;
}

-- The rest of an eviction or of an unregistration: the mapping and the selector forget the name.
unfoldable pub forget : String → AsyncDatabase → AsyncDatabase
unfolding set_replicas
forget n s = record s {
  config = record s.config { databases = remove s.config.databases n };
  selector = set_replicas s.selector n [];
}

-- The loop of `_evict_lru_databases_locked`, over the names from the oldest on.
unfoldable pub evict_over : ℕ → List String → AsyncDatabase → AsyncDatabase
unfolding purge forget
evict_over limit [] s = record s { dynamic_lru = [] }
evict_over limit (n ∷ ns) s =
    let rest = evict_over limit ns (forget n (purge n s)) in
    if ltb limit (length (n ∷ ns)) then rest else record s { dynamic_lru = n ∷ ns }

abbrev evict_with : Option ℕ → AsyncDatabase → AsyncDatabase
unfolding evict_over
evict_with none s = s
evict_with (some limit) s = evict_over limit s.dynamic_lru s

-- `_evict_lru_databases_locked`
unfoldable pub evict_lru_databases : AsyncDatabase → AsyncDatabase
unfolding evict_with
evict_lru_databases s = evict_with s.config.max_databases s

abbrev primary_route : String → ResolvedRoute
primary_route n = record { database = n; shard_id = "default"; role = primary; replica_name = none }

-- A name that is replaced loses its engines, its limiter and its breakers first.
abbrev pub clean : String → AsyncDatabase → AsyncDatabase
clean n s = if has s.config.databases n then purge n s else s

-- The new mapping, and the new replicas of the selector.
abbrev pub swap : String → DatabaseConfig → AsyncDatabase → AsyncDatabase
swap n db s = record s {
  config = record s.config { databases = set s.config.databases n db };
  selector = set_replicas s.selector n (replica_names db);
}

-- `register_database` between its checks and the connection.
unfoldable pub install : String → DatabaseConfig → AsyncDatabase → AsyncDatabase
unfolding purge set_replicas touch_dynamic evict_lru_databases
install n db s = evict_lru_databases (touch_dynamic n (swap n db (clean n s)))

module _ (scheme : String → String) (create : TargetConfig → PoolConfig → Option ℕ) where
  -- What `register_database` checks before it changes anything.
  unfoldable pub check : String → DatabaseConfig → AsyncDatabase → Result DatabaseError (Unit {0})
  check n db s =
      validate_database scheme db
      >> enforce_database_budget db s.config.defaults
      >> enforce_process_budget (record s.config { databases = set s.config.databases n db })

  abbrev connected :
      AsyncDatabase
      → Bool
      → AsyncEngineRegistry × Result DatabaseError EngineEntry
      → AsyncDatabase × Result DatabaseError Bool
  connected s replaced (r, ok e) = (record s { registry = r }, ok replaced)
  connected s replaced (r, err e) = (record s { registry = r }, err e)

  abbrev connect_primary :
      Bool → ℕ → String → Bool → AsyncDatabase → AsyncDatabase × Result DatabaseError Bool
  connect_primary true now n replaced s =
      connected s replaced (get_engine scheme create s.config now (primary_route n) s.registry)
  connect_primary false now n replaced s = (s, ok replaced)

  abbrev checked :
      Result DatabaseError (Unit {0})
      → ℕ
      → String
      → DatabaseConfig
      → Option Bool
      → AsyncDatabase
      → AsyncDatabase × Result DatabaseError Bool
  unfolding install
  checked (err e) now n db connect s = (s, err e)
  checked (ok tt) now n db connect s =
      connect_primary (or_else connect (s.started && db.primary.required)) now n
        (has s.config.databases n) (install n db s)

  unfoldable pub register_database :
      ℕ
      → String
      → DatabaseConfig
      → Option Bool
      → AsyncDatabase
      → AsyncDatabase × Result DatabaseError Bool
  unfolding checked check
  register_database now n db connect s = checked (check n db s) now n db connect s

  abbrev is_same :
      (DatabaseConfig → DatabaseConfig → Bool) → DatabaseConfig → Option DatabaseConfig → Bool
  is_same same db none = false
  is_same same db (some old) = same old db

  abbrev registered :
      AsyncDatabase × Result DatabaseError Bool → AsyncDatabase × Result DatabaseError Bool
  registered (s, ok replaced) = (s, ok true)
  registered (s, err e) = (s, err e)

  unfoldable pub ensure_database :
      (DatabaseConfig → DatabaseConfig → Bool)
      → ℕ
      → String
      → DatabaseConfig
      → Option Bool
      → AsyncDatabase
      → AsyncDatabase × Result DatabaseError Bool
  unfolding touch_dynamic register_database
  ensure_database same now n db connect s =
      if is_same same db (get s.config.databases n)
      then (touch_dynamic n s, ok false)
      else registered (register_database now n db connect s)

-- `unregister_database`
unfoldable pub unregister_database : String → AsyncDatabase → AsyncDatabase × Bool
unfolding purge forget without
unregister_database n s =
    if has s.config.databases n
    then (
      (let gone = forget n (purge n s) in record gone { dynamic_lru = without n gone.dynamic_lru }),
      true,
    )
    else (s, false)

-- `close`
unfoldable pub close : AsyncDatabase → AsyncDatabase
unfolding dispose_all
close s = record s { registry = dispose_all s.registry; started = false }
