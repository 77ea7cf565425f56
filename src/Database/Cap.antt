-- ===== src/Database/Cap.antt =====
-- No operation lets the dynamic databases grow past `max_databases`.
use dbkit_sql.Prelude.{
  ℕ, String, Option, none, some, Bool, true, false, ◌≡◌, refl, inl, inr, List, [], ◌∷◌, arith,
  string_eq, Result, ok, err, Bool-cases, or_else, ◌&&◌, is_some,
}
use dbkit_sql.Prelude.Dict.{Dict, get, has, Distinct}
use dbkit_sql.Errors.{DatabaseError}
use dbkit_sql.Engine.{AsyncEngineRegistry, EngineEntry, get_engine}
use dbkit_sql.Config.{DatabaseConfig, DbkitConfig, PoolConfig, TargetConfig}
use dbkit_sql.Database.{
  AsyncDatabase, member, purge, forget, install, check, checked, connect_primary, connected,
  register_database, ensure_database, unregister_database, close, new_database, is_same, registered,
  keys, primary_route,
}
use dbkit_sql.Database.Events.{Event, registers, ensures, unregisters, closes, step, run}
use dbkit_sql.Database.Dynamic.{Inv, without-Tracks}
use dbkit_sql.Database.Dynamic.Names.{length-without}
use dbkit_sql.Database.Eviction.{install-Inv, touch-Inv}

module _ (c : DbkitConfig) (static : List String) where
  module _ (scheme : String → String) (create : TargetConfig → PoolConfig → Option ℕ)
      (same : DatabaseConfig → DatabaseConfig → Bool) where
    connect_primary-Inv :
        (b : Bool) (now : ℕ) (n : String) (replaced : Bool) (s : AsyncDatabase)
        → Inv c static s
        → Inv c static (connect_primary scheme create b now n replaced s).0
    connect_primary-Inv false now n replaced s h = h
    connect_primary-Inv true now n replaced s h =
        by_answer (get_engine scheme create s.config now (primary_route n) s.registry)
      where
        by_answer :
            (a : AsyncEngineRegistry × Result DatabaseError EngineEntry)
            → Inv c static (connected scheme create s replaced a).0
        by_answer (r, ok e) = record {
          same_static = h.same_static;
          same_cap = h.same_cap;
          tracks = h.tracks;
          capped = h.capped;
        }
        by_answer (r, err e) = record {
          same_static = h.same_static;
          same_cap = h.same_cap;
          tracks = h.tracks;
          capped = h.capped;
        }

    checked-Inv :
        (o : Result DatabaseError (Unit {0})) (now : ℕ) (n : String) (db : DatabaseConfig)
        (connect : Option Bool) (s : AsyncDatabase)
        → Inv c static s
        → Inv c static (checked scheme create o now n db connect s).0
    unfolding checked
    checked-Inv (err e) now n db connect s h = h
    checked-Inv (ok u) now n db connect s h =
        connect_primary-Inv (or_else connect (s.started && db.primary.required)) now n
          (has s.config.databases n) (install n db s) (install-Inv c static n db s h)

    register_database-Inv :
        (now : ℕ) (n : String) (db : DatabaseConfig) (connect : Option Bool) (s : AsyncDatabase)
        → Inv c static s
        → Inv c static (register_database scheme create now n db connect s).0
    unfolding register_database
    register_database-Inv now n db connect s h =
        checked-Inv (check scheme create n db s) now n db connect s h

    registered-Inv :
        (a : AsyncDatabase × Result DatabaseError Bool)
        → Inv c static a.0
        → Inv c static (registered scheme create a).0
    registered-Inv (s, ok b) h = h
    registered-Inv (s, err e) h = h

    same-has :
        (db : DatabaseConfig) (o : Option DatabaseConfig)
        → is_same scheme create same db o ≡ true
        → is_some o ≡ true
    same-has db none e = e
    same-has db (some old) e = refl

    ensure_database-Inv :
        (now : ℕ) (n : String) (db : DatabaseConfig) (connect : Option Bool) (s : AsyncDatabase)
        → Inv c static s
        → Inv c static (ensure_database scheme create same now n db connect s).0
    unfolding ensure_database
    ensure_database-Inv now n db connect s h =
        elim (Bool-cases (is_same scheme create same db (get s.config.databases n))) [
          | inl unchanged ↦
              rw unchanged
                (touch-Inv c static n s (same-has db (get s.config.databases n) unchanged) h)
          | inr changed ↦ rw changed (
              registered-Inv (register_database scheme create now n db connect s)
                (register_database-Inv now n db connect s h))
        ]

    unregister_database-Inv :
        (n : String) (s : AsyncDatabase) → Inv c static s → Inv c static (unregister_database n s).0
    unfolding unregister_database purge forget
    unregister_database-Inv n s h = elim (Bool-cases (has s.config.databases n)) [
      | inl known ↦ rw known (record {
        same_static = h.same_static;
        same_cap = h.same_cap;
        tracks = without-Tracks static s.dynamic_lru n s.config.databases h.tracks;
        capped = λ limit q. ground (arith, h.capped limit q, length-without n s.dynamic_lru);
      })
      | inr unknown ↦ rw unknown h
    ]

    step-Inv :
        (s : AsyncDatabase) (e : Event)
        → Inv c static s
        → Inv c static (step scheme create same s e)
    unfolding step
    step-Inv s (registers now n db connect) h = register_database-Inv now n db connect s h
    step-Inv s (ensures now n db connect) h = ensure_database-Inv now n db connect s h
    step-Inv s (unregisters n) h = unregister_database-Inv n s h
    step-Inv s closes h =
        unfold close in
        record {
          same_static = h.same_static;
          same_cap = h.same_cap;
          tracks = h.tracks;
          capped = h.capped;
        }

    run-Inv :
        (s : AsyncDatabase) (es : List Event)
        → Inv c static s
        → Inv c static (run scheme create same s es)
    unfolding run
    run-Inv s [] h = h
    run-Inv s (e ∷ es) h = run-Inv (step scheme create same s e) es (step-Inv s e h)

has-keys : (d : Dict String DatabaseConfig) (n : String) → has d n ≡ true → member n (keys d) ≡ true
unfolding get member
has-keys [] n e = cc e
has-keys ((k, db) ∷ d) n e = ground (arith, has-keys d n)

-- Take calls that come one after another, each running to its end with no disposal of an engine failing or
-- cancelled. From a configuration that names no database twice, whatever databases are registered, ensured
-- and unregistered by such calls, and in whatever order: after each of them there are never more than
-- `max_databases` dynamic ones, none twice and none with a static name, each of them is configured, and
-- every configured database is static or dynamic.
pub run-new_database-Inv :
    (scheme : String → String) (create : TargetConfig → PoolConfig → Option ℕ)
    (same : DatabaseConfig → DatabaseConfig → Bool) (c : DbkitConfig) (es : List Event)
    → Distinct c.databases
    → Inv c (keys c.databases) (run scheme create same (new_database c) es)
run-new_database-Inv scheme create same c es dist =
    run-Inv c (keys c.databases) scheme create same (new_database c) es (
      unfold new_database member in
      record {
        same_static = refl;
        same_cap = refl;
        tracks = record {
          distinct = dist;
          no_repeat = tt;
          disjoint = λ n e. cc e;
          live = λ n e. cc e;
          covered = λ n e. inl (has-keys c.databases n e);
        };
        capped = λ limit e. omega arith;
      })
