-- ===== src/Config/Loading/Loads.antt =====
-- What `from_dict` gives.
use dbkit_sql.Prelude.{
  bind-ok, ℕ, ◌≡◌, ◌≢◌, refl, sym, ap, ◌∙◌, String, Option, none, some, true, false, List, [], ◌∷◌,
  string_eq, Result, ok, err, or_else, arith,
}
use dbkit_sql.Prelude.Dict.{Dict}
use dbkit_sql.Errors.{DatabaseError}
use dbkit_sql.Config.{DatabaseConfig, DbkitConfig, validate}
use dbkit_sql.Config.Tree.{
  Node, null, truth, number, text, mapping, sequence, Entries, no_entries, entry, Loaded, refused,
  key_type_or_value_error, attribute_error, not_followed, lookup, Numbers, flag, truthy, kept_text,
  read_limit,
}
use dbkit_sql.Config.Sections.{section, default_budget, defaults_fields, budget_fields}
use dbkit_sql.Config.Loading.{
  database_fields, databases_of, databases_section, default_defaults, build_config, checked,
  from_dict,
}

abbrev pub entry_names : Entries → List String
entry_names no_entries = []
entry_names (entry name n rest) = name ∷ entry_names rest

abbrev pub names_of : Dict String DatabaseConfig → List String
names_of [] = []
names_of ((name, db) ∷ d) = name ∷ names_of d

module _ (python : Numbers) (scheme : String → String) (replica_name : ℕ → String) where
  databases_of-names :
      (d : Entries) (dbs : Dict String DatabaseConfig)
      → databases_of python replica_name d ≡ ok dbs
      → names_of dbs ≡ entry_names d
  unfolding databases_of
  databases_of-names no_entries dbs h = ap (λ r. names_of (or_empty r)) (sym h)
    where
      or_empty : Loaded (Dict String DatabaseConfig) → Dict String DatabaseConfig
      or_empty (ok x) = x
      or_empty (err e) = []
  databases_of-names (entry name n rest) dbs h =
      let (db, _, h1) = bind-ok (database_fields python replica_name n) _ dbs h in
      let (others, g, h2) = bind-ok (databases_of python replica_name rest) _ dbs h1 in
      cc (h2, databases_of-names rest others g)

  -- The configuration has the databases of the mapping, in its order.
  abbrev pub HasDatabases : Entries → DbkitConfig → Type 0
  HasDatabases raw c =
      (d : Entries) × (lookup raw "databases" ≡ some (mapping d))
      × (names_of c.databases ≡ entry_names d)

  databases_section-names :
      (o : Option Node) (dbs : Dict String DatabaseConfig)
      → databases_section python replica_name (or_else o null) ≡ ok dbs
      → (d : Entries) × (o ≡ some (mapping d)) × (names_of dbs ≡ entry_names d)
  unfolding databases_section
  databases_section-names none dbs h = cc
  databases_section-names (some null) dbs h = cc
  databases_section-names (some (truth b)) dbs h = cc
  databases_section-names (some (number f)) dbs h = cc
  databases_section-names (some (text s)) dbs h = cc
  databases_section-names (some (sequence ns)) dbs h = cc
  databases_section-names (some (mapping d)) dbs h = (d, refl, databases_of-names d dbs h)

  build_config-parts :
      (raw : Entries) (c : DbkitConfig)
      → build_config python replica_name raw ≡ ok c
      → (databases_section python replica_name (or_else (lookup raw "databases") null)
          ≡ ok c.databases)
        × (c.evict_lru_engines ≡ flag (lookup raw "evict_lru_engines") false)
  unfolding build_config
  build_config-parts raw c h =
      let (dbs, e, h1) =
        bind-ok (databases_section python replica_name (or_else (lookup raw "databases") null)) _ c
          h in
      let (env, _, h2) = bind-ok (kept_text (lookup raw "environment") "default") _ c h1 in
      let (d, _, h3) =
        bind-ok (section (lookup raw "defaults") (default_defaults python) (defaults_fields python))
          _ c h2 in
      let (b, _, h4) =
        bind-ok (section (lookup raw "connection_budget") default_budget (budget_fields python)) _ c
          h3 in
      let (m, _, h5) = bind-ok (read_limit python.int (lookup raw "max_engines")) _ c h4 in
      let (n, _, h6) = bind-ok (read_limit python.int (lookup raw "max_databases")) _ c h5 in
      (cc (e, h6), cc h6)

  checked-ok :
      (r : Loaded DbkitConfig) (c : DbkitConfig)
      → checked python scheme r ≡ ok c
      → (r ≡ ok c) × (validate scheme c ≡ ok tt)
  unfolding checked
  checked-ok (ok c') c h = valid (validate scheme c') refl h
    where
      after : Result DatabaseError (Unit {0}) → Loaded DbkitConfig
      after v = elim v [ err e ↦ err (refused e) | ok u ↦ ok c' ]

      valid :
          (v : Result DatabaseError (Unit {0}))
          → validate scheme c' ≡ v
          → after v ≡ ok c
          → (◌≡◌ {A = Loaded DbkitConfig} (ok c') (ok c)) × (validate scheme c ≡ ok tt)
      valid (ok u) e g = (g, cc (e, g))
      valid (err x) e g = cc
  checked-ok (err key_type_or_value_error) c h = cc
  checked-ok (err (refused e)) c h = cc
  checked-ok (err attribute_error) c h = cc
  checked-ok (err not_followed) c h = cc

  pub from_dict-valid :
      (raw : Entries) (c : DbkitConfig)
      → from_dict python scheme replica_name raw ≡ ok c
      → (validate scheme c ≡ ok tt)
        × HasDatabases raw c
        × (c.evict_lru_engines ≡ flag (lookup raw "evict_lru_engines") false)
  unfolding from_dict
  from_dict-valid raw c h =
      let (built, valid) = checked-ok (build_config python replica_name raw) c h in
      let (dbs, evicts) = build_config-parts raw c built in
      (valid, databases_section-names (lookup raw "databases") c.databases dbs, evicts)

  -- Where `evict_lru_engines` comes as a string that is not empty, such as "false", "no" and "0" from a
  -- `${VAR}`, every configuration that `from_dict` accepts has it on: the registry evicts engines.
  pub from_dict-flag_text :
      (raw : Entries) (c : DbkitConfig) (s : String)
      → lookup raw "evict_lru_engines" ≡ some (text s)
      → s ≢ ""
      → from_dict python scheme replica_name raw ≡ ok c
      → c.evict_lru_engines ≡ true
  unfolding flag truthy
  from_dict-flag_text raw c s e n h =
      (from_dict-valid raw c h).2
      ∙ ap (λ o. flag o false) e
      ∙ ground (arith, string_eq.eqb_iff s "")
