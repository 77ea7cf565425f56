-- ===== src/Engine/Events.antt =====
-- What happens to the registry of _async/engine.py over time.
use dbkit_sql.Prelude.{ℕ, String, Option, List, [], ◌∷◌, string_eq}
use dbkit_sql.Config.{DbkitConfig, PoolConfig, TargetConfig}
use dbkit_sql.Routing.{ResolvedRoute}
use dbkit_sql.Engine.{AsyncEngineRegistry, get_engine, get_locked, key_for}
use dbkit_sql.Engine.Disposal.{dispose_one, dispose_database, dispose_all}

-- What the tasks of a process do to the registry, in the order in which they do it: a creation under
-- the lock may come after other tasks' events since the look before it.
pub data Event : Type 0 where
  gets : ℕ → ResolvedRoute → Event
  creates : ℕ → ResolvedRoute → TargetConfig → Event
  disposes : String → Event
  disposes_database : String → Event
  closes : Event

module _ (scheme : String → String) (create : TargetConfig → PoolConfig → Option ℕ)
    (c : DbkitConfig) where
  unfoldable pub step : AsyncEngineRegistry → Event → AsyncEngineRegistry
  unfolding get_engine get_locked dispose_one dispose_database dispose_all
  step s (gets now r) = (get_engine scheme create c now r s).0
  step s (creates now r t) = (get_locked scheme create c now (key_for scheme create c r t) t s).0
  step s (disposes k) = (dispose_one k s).0
  step s (disposes_database db) = (dispose_database db s).0
  step s closes = dispose_all s

  unfoldable pub run : AsyncEngineRegistry → List Event → AsyncEngineRegistry
  unfolding step
  run s [] = s
  run s (e ∷ es) = run (step s e) es
