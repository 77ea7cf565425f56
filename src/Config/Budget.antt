-- ===== src/Config/Budget.antt =====
-- What a validated configuration promises: every database and the process keep their budgets.
use dbkit_sql.Prelude.{
  ℕ, ℤ, pos, ◌≤ℤ◌, String, some, true, ◌≡◌, refl, [], ◌∷◌, All, arith, ok, err, Result, ◌>>◌,
}
use dbkit_sql.Prelude.Dict.{Dict}
use dbkit_sql.Errors.{DatabaseError}
use dbkit_sql.Config.{
  ConnectionBudgetConfig, DatabaseConfig, DbkitConfig, Defaults, database_max_connections, enforce,
  enforce_database_budget, enforce_process_budget, max_connections_per_process, validate,
  validate_databases,
}

-- A budget that is enforced is kept by this many connections.
abbrev pub Keeps : ConnectionBudgetConfig → ℤ → Type 0
Keeps b actual =
    (limit : ℕ)
    → b.maximum_per_process ≡ some limit
    → b.enforce_at_startup ≡ true
    → actual ≤ℤ pos limit

pub enforce-Keeps :
    (b : ConnectionBudgetConfig) (actual : ℤ) → enforce b actual ≡ ok tt → Keeps b actual
unfolding enforce
enforce-Keeps b actual h limit m e = ground arith

-- What comes before `>>` and what comes after it succeed when the whole does.
pub first-ok :
    (a b : Result DatabaseError (Unit {0})) → (a >> b) ≡ ok tt → (a ≡ ok tt) × (b ≡ ok tt)
first-ok (ok tt) b h = (refl, h)
first-ok (err e) b h = (h, cc h)

module _ (scheme : String → String) (d : Defaults) where
  databases-Keep :
      (dbs : Dict String DatabaseConfig)
      → validate_databases scheme d dbs ≡ ok tt
      → All (λ p. Keeps p.1.connection_budget (database_max_connections p.1 d)) dbs
  unfolding enforce_database_budget
  databases-Keep [] h = tt
  databases-Keep ((name, db) ∷ dbs) h =
      let (front, rest) = first-ok _ _ h in
      let (_, budget) = first-ok _ _ front in
      (
        enforce-Keeps db.connection_budget (database_max_connections db d) budget,
        databases-Keep dbs rest,
      )

-- A configuration that validates keeps every budget that is enforced: that of each database by its own
-- connections and that of the process by the sum over all databases.
pub validate-Keeps :
    (scheme : String → String) (c : DbkitConfig)
    → validate scheme c ≡ ok tt
    → Keeps c.connection_budget (max_connections_per_process c)
      × All (λ p. Keeps p.1.connection_budget (database_max_connections p.1 c.defaults)) c.databases
unfolding validate enforce_process_budget
validate-Keeps scheme c h =
    let (front, budget) = first-ok _ _ h in
    let (_, dbs) = first-ok _ _ front in
    (
      enforce-Keeps c.connection_budget (max_connections_per_process c) budget,
      databases-Keep scheme c.defaults c.databases dbs,
    )
