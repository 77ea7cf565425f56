-- ===== src/Config/Loading.antt =====
-- `_target`, `_database`, `_build_config` and `from_dict` of _core/config.py. The argument of `from_dict` is
-- the tree after the expansion of `${VAR}`, which puts strings in; `replica_name i` is f"replica-{i}".
pub mod Loads
use dbkit_sql.Prelude.{
  ℕ, suc, String, Option, none, some, Bool, true, false, List, [], ◌∷◌, ◌==◌, string_eq, nat_beq,
  not, Result, ok, err, Fraction, or_else, if◌then◌else◌, ◌>>=◌,
}
use dbkit_sql.Prelude.Dict.{Dict}
use dbkit_sql.Config.{TargetConfig, DatabaseConfig, DbkitConfig, Defaults, config_error, validate}
use dbkit_sql.Config.Tree.{
  Node, null, truth, number, text, mapping, sequence, Entries, no_entries, entry, Nodes, no_nodes,
  item, Loaded, LoadError, refused, key_type_or_value_error, attribute_error, not_followed, lookup,
  truthy, flag, Numbers, read_with, read_natural, read_limit, kept_text,
}
use dbkit_sql.Config.Sections.{
  section, default_pool, default_retry, default_breaker, default_budget, unbounded, pool_fields,
  concurrency_fields, budget_fields, defaults_fields,
}

-- `key not in data` of a value: a string and a list can be asked too, which is not followed.
abbrev pub entries_of : Node → Loaded Entries
entries_of null = err key_type_or_value_error
entries_of (truth b) = err key_type_or_value_error
entries_of (number f) = err key_type_or_value_error
entries_of (mapping d) = ok d
entries_of (text s) = err not_followed
entries_of (sequence ns) = err not_followed

-- The elements of `data.get("replicas", [])`; those of a dict and of a string are strings.
abbrev pub elements : Option Node → Loaded Nodes
elements none = ok no_nodes
elements (some (sequence ns)) = ok ns
elements (some (mapping no_entries)) = ok no_nodes
elements (some (mapping (entry k n rest))) = err attribute_error
elements (some (text s)) = if s == "" then ok no_nodes else err attribute_error
elements (some _) = err key_type_or_value_error

abbrev pub missing_field : String → LoadError
missing_field message = refused (config_error message)

module _ (python : Numbers) where
  -- `_target`
  unfoldable pub target_fields : String → Entries → Loaded TargetConfig
  unfolding lookup truthy flag pool_fields
  target_fields name d = elim (lookup d "url") [
    | none ↦ err (missing_field "target is missing 'url'")
    | some url ↦ kept_text (some url) "" >>= λ u. kept_text (lookup d "name") name >>= λ n.
        read_natural python.int (lookup d "weight") 1 >>= λ weight.
        section (lookup d "pool") none (λ e. pool_fields python e >>= λ p. ok (some p)) >>= λ pool.
        ok (record {
          url = u;
          name = n;
          required = flag (lookup d "required") true;
          weight = weight;
          pool = pool;
        })
  ]

  abbrev pub replica_fields : String → Node → Loaded TargetConfig
  unfolding target_fields lookup
  replica_fields name (mapping d) = kept_text (lookup d "name") name >>= λ n. target_fields n d
  replica_fields name _ = err attribute_error

  -- The replicas from the i-th on, by `replica-i` where they have no name.
  unfoldable pub replicas_from : (ℕ → String) → ℕ → Nodes → Loaded (List TargetConfig)
  unfolding replica_fields
  replicas_from replica_name i no_nodes = ok []
  replicas_from replica_name i (item n rest) = replica_fields (replica_name i) n >>= λ t.
      replicas_from replica_name (suc i) rest >>= λ ts. ok (t ∷ ts)

  -- `_database`
  unfoldable pub database_fields : (ℕ → String) → Node → Loaded DatabaseConfig
  unfolding lookup replicas_from target_fields concurrency_fields budget_fields
  database_fields replica_name n = entries_of n >>= λ d. elim (lookup d "primary") [
    | none ↦ err (missing_field "database is missing a 'primary' target")
    | some primary ↦ elements (lookup d "replicas") >>= λ ns.
        replicas_from replica_name 0 ns >>= λ replicas. entries_of primary >>= λ p.
        target_fields "primary" p >>= λ target.
        section (lookup d "concurrency") unbounded (concurrency_fields python) >>= λ concurrency.
        section (lookup d "connection_budget") default_budget (budget_fields python) >>= λ budget.
        ok (record {
          primary = target;
          replicas = replicas;
          concurrency = concurrency;
          connection_budget = budget;
        })
  ]

  -- `{name: _database(name, cfg) for name, cfg in databases_raw.items()}`
  unfoldable pub databases_of : (ℕ → String) → Entries → Loaded (Dict String DatabaseConfig)
  unfolding database_fields
  databases_of replica_name no_entries = ok []
  databases_of replica_name (entry name n rest) = database_fields replica_name n >>= λ db.
      databases_of replica_name rest >>= λ dbs. ok ((name, db) ∷ dbs)

  abbrev pub databases_section : (ℕ → String) → Node → Loaded (Dict String DatabaseConfig)
  unfolding databases_of
  databases_section replica_name (mapping d) = databases_of replica_name d
  databases_section replica_name null =
      err (missing_field "configuration must define a 'databases' mapping")
  databases_section replica_name _ = err attribute_error

  abbrev pub default_defaults : Defaults
  default_defaults = record {
    query_timeout = 2000;
    pool = default_pool;
    retry = default_retry;
    circuit_breaker = default_breaker;
  }

  -- `_build_config`
  unfoldable pub build_config : (ℕ → String) → Entries → Loaded DbkitConfig
  unfolding lookup truthy flag databases_section defaults_fields budget_fields
  build_config replica_name raw =
      databases_section replica_name (or_else (lookup raw "databases") null) >>= λ databases.
      kept_text (lookup raw "environment") "default" >>= λ environment.
      section (lookup raw "defaults") default_defaults (defaults_fields python) >>= λ defaults.
      section (lookup raw "connection_budget") default_budget (budget_fields python) >>= λ budget.
      read_limit python.int (lookup raw "max_engines") >>= λ max_engines.
      read_limit python.int (lookup raw "max_databases") >>= λ max_databases. ok (record {
        databases = databases;
        environment = environment;
        defaults = defaults;
        connection_budget = budget;
        max_engines = max_engines;
        max_databases = max_databases;
        evict_lru_engines = flag (lookup raw "evict_lru_engines") false;
      })

  -- The `except` clauses of `from_dict`, and the validation after them.
  abbrev pub checked : (String → String) → Loaded DbkitConfig → Loaded DbkitConfig
  unfolding validate
  checked scheme (err key_type_or_value_error) =
      err (refused (config_error "invalid configuration"))
  checked scheme (err e) = err e
  checked scheme (ok c) = elim (validate scheme c) [ err e ↦ err (refused e) | ok u ↦ ok c ]

  -- `from_dict`
  unfoldable pub from_dict : (String → String) → (ℕ → String) → Entries → Loaded DbkitConfig
  unfolding build_config checked
  from_dict scheme replica_name raw = checked scheme (build_config replica_name raw)
