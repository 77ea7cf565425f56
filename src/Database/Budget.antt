-- ===== src/Database/Budget.antt =====
-- Registration never pushes the process past an enforced connection budget.
use dbkit_sql.Prelude.{
  pos, ◌≤ℤ◌, add_ℤ_lem, All, if-elim, ◌==◌, subst, sym, ℕ, String, Option, none, some, Bool, ◌≡◌,
  refl, ap, ◌∙◌, List, [], ◌∷◌, length, arith, string_eq, Result, ok, err, ltb, or_else, ◌&&◌,
}
use dbkit_sql.Prelude.Dict.{Dict, set, remove, has}
use dbkit_sql.Errors.{DatabaseError}
use dbkit_sql.Config.{
  DatabaseConfig, DbkitConfig, Defaults, PoolConfig, TargetConfig, max_connections_per_process,
  sum_of_databases, database_max_connections, enforce_process_budget,
}
use dbkit_sql.Config.Budget.{Keeps, enforce-Keeps, first-ok}
use dbkit_sql.Database.{
  AsyncDatabase, touch_dynamic, purge, forget, evict_over, evict_with, evict_lru_databases, install,
  check, checked, register_database, clean, swap,
}
use dbkit_sql.Database.Removal.{clean-config, connect_primary-config}

-- No database counts less than no connection.
abbrev pub NoneNegative : Defaults → Dict String DatabaseConfig → Type 0
NoneNegative d dbs = All (λ p. pos 0 ≤ℤ database_max_connections p.1 d) dbs

sum-remove-le :
    (d : Defaults) (dbs : Dict String DatabaseConfig) (n : String)
    → NoneNegative d dbs
    → sum_of_databases d (remove dbs n) ≤ℤ sum_of_databases d dbs
unfolding remove
sum-remove-le d [] n h = omega arith
sum-remove-le d ((k, db) ∷ dbs) n h =
    let own = database_max_connections db d in
    let whole = add_ℤ_lem own (sum_of_databases d dbs) in
    let part = add_ℤ_lem own (sum_of_databases d (remove dbs n)) in
    ground (arith, sum-remove-le d dbs n h.1, whole, part, h.0)

remove-NoneNegative :
    (d : Defaults) (dbs : Dict String DatabaseConfig) (n : String)
    → NoneNegative d dbs
    → NoneNegative d (remove dbs n)
unfolding remove
remove-NoneNegative d [] n h = tt
remove-NoneNegative d ((k, db) ∷ dbs) n h =
    if-elim (NoneNegative d) (k == n) (λ _. h.1) (λ _. (h.0, remove-NoneNegative d dbs n h.1))

set-NoneNegative :
    (d : Defaults) (dbs : Dict String DatabaseConfig) (n : String) (db : DatabaseConfig)
    → pos 0 ≤ℤ database_max_connections db d
    → NoneNegative d dbs
    → NoneNegative d (set dbs n db)
unfolding set
set-NoneNegative d [] n db m h = (m, tt)
set-NoneNegative d ((k, old) ∷ dbs) n db m h =
    if-elim (NoneNegative d) (k == n) (λ _. (m, h.1))
      (λ _. (h.0, set-NoneNegative d dbs n db m h.1))

-- A configuration with these defaults that keeps its budget and counts nothing below zero.
pub record Safe (d : Defaults) (c : DbkitConfig) : Type 0 where
  pub same : c.defaults ≡ d
  pub keeps : Keeps c.connection_budget (sum_of_databases d c.databases)
  pub natural : NoneNegative d c.databases

module _ (d : Defaults) where
  pub forget-Safe :
      (n : String) (s : AsyncDatabase) → Safe d s.config → Safe d (forget n (purge n s)).config
  unfolding forget purge
  forget-Safe n s h = record {
    same = h.same;
    keeps = λ limit capped enforced.
        omega
          (arith, sum-remove-le d s.config.databases n h.natural, h.keeps limit capped enforced);
    natural = remove-NoneNegative d s.config.databases n h.natural;
  }

  evict_over-Safe :
      (limit : ℕ) (ns : List String) (s : AsyncDatabase)
      → Safe d s.config
      → Safe d (evict_over limit ns s).config
  unfolding evict_over
  evict_over-Safe limit [] s h = h
  evict_over-Safe limit (n ∷ ns) s h =
      if-elim (λ (x : AsyncDatabase). Safe d x.config) (ltb limit (length (n ∷ ns)))
        (λ _. evict_over-Safe limit ns (forget n (purge n s)) (forget-Safe n s h)) (λ _. h)

  evict-Safe : (s : AsyncDatabase) → Safe d s.config → Safe d (evict_lru_databases s).config
  unfolding evict_lru_databases
  evict-Safe s h = by_cap s.config.max_databases
    where
      by_cap : (o : Option ℕ) → Safe d (evict_with o s).config
      by_cap none = h
      by_cap (some limit) = evict_over-Safe limit s.dynamic_lru s h

pub touched-config : (n : String) (s : AsyncDatabase) → (touch_dynamic n s).config ≡ s.config
unfolding touch_dynamic
touched-config n s = ground arith

abbrev prospective : String → DatabaseConfig → AsyncDatabase → DbkitConfig
prospective n db s = record s.config { databases = set s.config.databases n db }

-- The state after the change of the mapping has the databases that were checked, but those evicted.
install-Safe :
    (d : Defaults) (n : String) (db : DatabaseConfig) (s : AsyncDatabase)
    → Safe d (prospective n db s)
    → Safe d (install n db s).config
unfolding install
install-Safe d n db s h =
    let x = swap n db (clean n s) in
    let swapped : x.config ≡ prospective n db s =
      ap {A = DbkitConfig} (λ c. record c { databases = set c.databases n db })
        (clean-config n s) in
    evict-Safe d (touch_dynamic n x) (subst (Safe d) (sym (touched-config n x ∙ swapped)) h)

module _ (scheme : String → String) (create : TargetConfig → PoolConfig → Option ℕ)
    (d : Defaults) where
  check-Safe :
      (n : String) (db : DatabaseConfig) (s : AsyncDatabase)
      → pos 0 ≤ℤ database_max_connections db d
      → Safe d s.config
      → check scheme create n db s ≡ ok tt
      → Safe d (prospective n db s)
  unfolding check enforce_process_budget max_connections_per_process
  check-Safe n db s m h c = record {
    same = h.same;
    keeps =
        subst
          (λ e. Keeps s.config.connection_budget (sum_of_databases e (set s.config.databases n db)))
          h.same
          (enforce-Keeps s.config.connection_budget
            (max_connections_per_process (prospective n db s)) (first-ok _ _ c).1);
    natural = set-NoneNegative d s.config.databases n db m h.natural;
  }

  -- A safe configuration stays so in `register_database`, whether that succeeds or raises, replaces a
  -- database, evicts others or fails to connect, if the database counts nothing below zero.
  pub register-Safe :
      (now : ℕ) (n : String) (db : DatabaseConfig) (connect : Option Bool) (s : AsyncDatabase)
      → pos 0 ≤ℤ database_max_connections db d
      → Safe d s.config
      → Safe d (register_database scheme create now n db connect s).0.config
  unfolding register_database checked
  register-Safe now n db connect s m h = by_check (check scheme create n db s) refl
    where
      by_check :
          (o : Result DatabaseError (Unit {0}))
          → check scheme create n db s ≡ o
          → Safe d (checked scheme create o now n db connect s).0.config
      by_check (err e) k = h
      by_check (ok u) k =
          rw
            (connect_primary-config scheme create
              (or_else connect (s.started && db.primary.required)) now n (has s.config.databases n)
              (install n db s))
            (install-Safe d n db s (check-Safe n db s m h k))
