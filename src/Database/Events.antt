-- ===== src/Database/Events.antt =====
-- Calls of the methods of _async/database.py that change which databases there are.
use dbkit_sql.Prelude.{ℕ, String, Option, Bool, List, [], ◌∷◌, string_eq}
use dbkit_sql.Config.{DatabaseConfig, PoolConfig, TargetConfig}
use dbkit_sql.Database.{
  AsyncDatabase, register_database, ensure_database, unregister_database, close,
}

-- A call of one of the methods that change which databases there are.
pub data Event : Type 0 where
  registers ensures : ℕ → String → DatabaseConfig → Option Bool → Event
  unregisters : String → Event
  closes : Event

module _ (scheme : String → String) (create : TargetConfig → PoolConfig → Option ℕ)
    (same : DatabaseConfig → DatabaseConfig → Bool) where
  unfoldable pub step : AsyncDatabase → Event → AsyncDatabase
  unfolding register_database ensure_database unregister_database close
  step s (registers now n db connect) = (register_database scheme create now n db connect s).0
  step s (ensures now n db connect) = (ensure_database scheme create same now n db connect s).0
  step s (unregisters n) = (unregister_database n s).0
  step s closes = close s

  unfoldable pub run : AsyncDatabase → List Event → AsyncDatabase
  unfolding step
  run s [] = s
  run s (e ∷ es) = run (step s e) es
