-- ===== src/Config/Warnings.antt =====
-- `budget_enforcement_warnings` and `tls_warnings` of DbkitConfig (_core/config.py). `query_keys` stands for
-- the keys of `parse_qs(urlsplit(url).query)` of urllib. A warning is its kind and what it names.
use dbkit_sql.Prelude.{
  ◌≡◌, ◌↔◌, String, Bool, true, false, List, [], ◌∷◌, ◌++◌, ◌==◌, string_eq, not, if◌then◌else◌,
  ◌⊎◌, arith, All, is_some, ◌&&◌, ◌||◌,
}
use dbkit_sql.Prelude.Dict.{Dict}
use dbkit_sql.Config.{
  ConnectionBudgetConfig, DatabaseConfig, DbkitConfig, TargetConfig, all_targets,
}

pub data Warning : Type 0 where
  no_process_budget process_budget_not_enforced : Warning
  database_budget_not_enforced : String → Warning
  no_tls_setting : String → String → Warning

-- key in keys
abbrev is_in : String → List String → Bool
is_in k [] = false
is_in k (j ∷ js) = if j == k then true else is_in k js

abbrev process_warnings : ConnectionBudgetConfig → List Warning
process_warnings b =
    if not (is_some b.maximum_per_process)
    then no_process_budget ∷ []
    else (if not b.enforce_at_startup then process_budget_not_enforced ∷ [] else [])

unfoldable pub database_warnings : Dict String DatabaseConfig → List Warning
database_warnings [] = []
database_warnings ((name, db) ∷ d) =
    let rest = database_warnings d in
    if is_some db.connection_budget.maximum_per_process
      && not db.connection_budget.enforce_at_startup
    then database_budget_not_enforced name ∷ rest
    else rest

unfoldable pub budget_enforcement_warnings : DbkitConfig → List Warning
unfolding database_warnings
budget_enforcement_warnings c =
    if c.environment == "development"
    then []
    else process_warnings c.connection_budget ++ database_warnings c.databases

module _ (query_keys : String → List String) where
  abbrev has_explicit_tls_setting : TargetConfig → Bool
  has_explicit_tls_setting t = is_in "sslmode" (query_keys t.url) || is_in "ssl" (query_keys t.url)

  abbrev target_warnings : String → List TargetConfig → List Warning
  target_warnings name [] = []
  target_warnings name (t ∷ ts) =
      let rest = target_warnings name ts in
      if not (has_explicit_tls_setting t) then no_tls_setting name t.name ∷ rest else rest

  abbrev tls_over : Dict String DatabaseConfig → List Warning
  unfolding all_targets
  tls_over [] = []
  tls_over ((name, db) ∷ d) = target_warnings name (all_targets db) ++ tls_over d

  unfoldable pub tls_warnings : DbkitConfig → List Warning
  unfolding tls_over
  tls_warnings c = if c.environment == "development" then [] else tls_over c.databases

-- A budget that limits connections and is enforced, and one that is enforced if it limits any.
abbrev pub IsEnforced : ConnectionBudgetConfig → Type 0
IsEnforced b = (is_some b.maximum_per_process ≡ true) × (b.enforce_at_startup ≡ true)

abbrev pub IsHonest : String × DatabaseConfig → Type 0
IsHonest p =
    (is_some p.1.connection_budget.maximum_per_process ≡ false)
    ⊎ (p.1.connection_budget.enforce_at_startup ≡ true)

database_warnings_iff :
    (d : Dict String DatabaseConfig) → (database_warnings d ≡ []) ↔ All IsHonest d
unfolding database_warnings
database_warnings_iff [] = ground arith
database_warnings_iff ((name, db) ∷ d) = ground (arith, database_warnings_iff d)

process_warnings_iff : (b : ConnectionBudgetConfig) → (process_warnings b ≡ []) ↔ IsEnforced b
process_warnings_iff b = ground arith

-- The result is silent exactly when both of its halves are.
append-silent : (ws vs : List Warning) → (ws ++ vs ≡ []) ↔ ((ws ≡ []) × (vs ≡ []))
append-silent [] vs = ground arith
append-silent (w ∷ ws) vs = ground arith

budget_enforcement_warnings_iff :
    (c : DbkitConfig)
    → (budget_enforcement_warnings c ≡ []) ↔ (
        ((c.environment == "development") ≡ true)
        ⊎ (IsEnforced c.connection_budget × All IsHonest c.databases))
unfolding budget_enforcement_warnings
budget_enforcement_warnings_iff c =
    let halves =
      append-silent (process_warnings c.connection_budget) (database_warnings c.databases) in
    ground
      (arith, halves, process_warnings_iff c.connection_budget, database_warnings_iff c.databases)
