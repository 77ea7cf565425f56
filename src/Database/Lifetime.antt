-- ===== src/Database/Lifetime.antt =====
-- The connection budget over the life of a facade.
use dbkit_sql.Prelude.{
  pos, ◌≤ℤ◌, refl, subst, sym, All, ℕ, String, string_eq, Option, Bool, ◌≡◌, List, [], ◌∷◌, Result,
  ok, err, Bool-cases, inl, inr,
}
use dbkit_sql.Prelude.Dict.{get, has}
use dbkit_sql.Errors.{DatabaseError}
use dbkit_sql.Config.{
  Defaults, database_max_connections, sum_of_databases, DatabaseConfig, DbkitConfig, PoolConfig,
  TargetConfig, max_connections_per_process, validate,
}
use dbkit_sql.Config.Budget.{Keeps, validate-Keeps}
use dbkit_sql.Database.{
  AsyncDatabase, purge, forget, register_database, ensure_database, unregister_database, close,
  registered, is_same, new_database,
}
use dbkit_sql.Database.Events.{Event, registers, ensures, unregisters, closes, step, run}
use dbkit_sql.Database.Budget.{NoneNegative, Safe, forget-Safe, register-Safe, touched-config}

-- The process keeps its budget in this state.
abbrev pub InBudget : AsyncDatabase → Type 0
InBudget s = Keeps s.config.connection_budget (max_connections_per_process s.config)

-- A database that is registered or ensured counts nothing below zero.
abbrev pub CountsUp : Defaults → Event → Type 0
CountsUp d (registers now n db connect) = pos 0 ≤ℤ database_max_connections db d
CountsUp d (ensures now n db connect) = pos 0 ≤ℤ database_max_connections db d
CountsUp d (unregisters n) = Unit
CountsUp d closes = Unit

module _ (scheme : String → String) (create : TargetConfig → PoolConfig → Option ℕ)
    (same : DatabaseConfig → DatabaseConfig → Bool) where
  registered-Safe :
      (d : Defaults) (a : AsyncDatabase × Result DatabaseError Bool)
      → Safe d a.0.config
      → Safe d (registered scheme create a).0.config
  registered-Safe d (s, ok b) h = h
  registered-Safe d (s, err e) h = h

  ensure-Safe :
      (d : Defaults) (now : ℕ) (n : String) (db : DatabaseConfig) (connect : Option Bool)
      (s : AsyncDatabase)
      → pos 0 ≤ℤ database_max_connections db d
      → Safe d s.config
      → Safe d (ensure_database scheme create same now n db connect s).0.config
  unfolding ensure_database
  ensure-Safe d now n db connect s m h =
      elim (Bool-cases (is_same scheme create same db (get s.config.databases n))) [
        | inl unchanged ↦ rw unchanged (rw (touched-config n s) h)
        | inr changed ↦ rw changed (
            registered-Safe d (register_database scheme create now n db connect s)
              (register-Safe scheme create d now n db connect s m h))
      ]

  unregister-Safe :
      (d : Defaults) (n : String) (s : AsyncDatabase)
      → Safe d s.config
      → Safe d (unregister_database n s).0.config
  unfolding unregister_database
  unregister-Safe d n s h = elim (Bool-cases (has s.config.databases n)) [
    | inl known ↦ rw known (unfold forget purge in forget-Safe d n s h)
    | inr unknown ↦ rw unknown h
  ]

  step-Safe :
      (d : Defaults) (s : AsyncDatabase) (e : Event)
      → CountsUp d e
      → Safe d s.config
      → Safe d (step scheme create same s e).config
  unfolding step
  step-Safe d s (registers now n db connect) m h =
      register-Safe scheme create d now n db connect s m h
  step-Safe d s (ensures now n db connect) m h = ensure-Safe d now n db connect s m h
  step-Safe d s (unregisters n) m h = unregister-Safe d n s h
  step-Safe d s closes m h = unfold close in h

  run-Safe :
      (d : Defaults) (s : AsyncDatabase) (es : List Event)
      → All (CountsUp d) es
      → Safe d s.config
      → Safe d (run scheme create same s es).config
  unfolding run
  run-Safe d s [] m h = h
  run-Safe d s (e ∷ es) m h =
      run-Safe d (step scheme create same s e) es m.1 (step-Safe d s e m.0 h)

  Safe-InBudget : (d : Defaults) (s : AsyncDatabase) → Safe d s.config → InBudget s
  unfolding max_connections_per_process
  Safe-InBudget d s h =
      subst (λ e. Keeps s.config.connection_budget (sum_of_databases e s.config.databases))
        (sym h.same) h.keeps

  -- Take a facade built from a configuration that validates, and databases registered, ensured and
  -- unregistered afterwards, in whatever order. As long as no database of the configuration and none
  -- that is registered counts less than zero connections, as negative sizes of its targets' own pools
  -- make it, the facade keeps the enforced connection budget of its process, whether these calls
  -- succeed, raise, replace or evict.
  pub run-validated-InBudget :
      (c : DbkitConfig) (es : List Event)
      → validate scheme c ≡ ok tt
      → NoneNegative c.defaults c.databases
      → All (CountsUp c.defaults) es
      → InBudget (run scheme create same (new_database c) es)
  unfolding max_connections_per_process
  run-validated-InBudget c es v n m =
      let s = new_database c in
      let start : Safe c.defaults (new_database c).config =
        unfold new_database in
        (record { same = refl; keeps = (validate-Keeps scheme c v).0; natural = n }) in
      Safe-InBudget c.defaults (run scheme create same s es) (run-Safe c.defaults s es m start)
