-- ===== src/Database/Replicas.antt =====
-- The replica selector follows the databases: every route that is handed out has a target.
use dbkit_sql.Prelude.{
  ℕ, suc, String, Option, none, some, Bool, true, false, ◌≡◌, refl, sym, ap, ◌∙◌, subst, List, [],
  ◌∷◌, map, length, arith, ◌==◌, string_eq, if◌then◌else◌, Result, ok, err, ltb, Bool-cases, inl,
  inr, or_else, get_elem?, if-elim, if-true, if-false, zero, not, ◌&&◌,
}
use dbkit_sql.Prelude.Dict.{
  Dict, get, has, Distinct, get-set, get-remove, set-Distinct, remove-Distinct,
}
use dbkit_sql.Errors.{DatabaseError}
use dbkit_sql.Config.{DatabaseConfig, DbkitConfig, PoolConfig, TargetConfig}
use dbkit_sql.Engine.{AsyncEngineRegistry, EngineEntry, by_name, target_for}
use dbkit_sql.Routing.{DatabaseTarget, ResolvedRoute, primary, wants_replica}
use dbkit_sql.Routing.RoundRobin.{RoundRobin, new, rotate, select, set_replicas}
use dbkit_sql.Database.{
  AsyncDatabase, new_database, names_of, replica_names, touch_dynamic, member, purge, forget,
  evict_over, evict_with, evict_lru_databases, install, check, checked, connect_primary, connected,
  register_database, ensure_database, registered, is_same, unregister_database, close, clean, swap,
}
use dbkit_sql.Database.Target.{is_empty, resolve_target, resolve_in, routed, selected, shard_of}
use dbkit_sql.Database.Events.{Event, registers, ensures, unregisters, closes, step, run}

-- The replicas that a selector knows, and those that are configured.
abbrev pub known : RoundRobin → String → List String
known r n = or_else (get r.names n) []

abbrev pub configured : Option DatabaseConfig → List String
configured none = []
configured (some db) = replica_names db

pub record Agrees (s : AsyncDatabase) : Type 0 where
  pub distinct_names : Distinct s.selector.names
  pub distinct : Distinct s.config.databases
  pub same : (n : String) → known s.selector n ≡ configured (get s.config.databases n)

known-set_replicas :
    (r : RoundRobin) (n : String) (ns : List String) (m : String)
    → Distinct r.names
    → known (set_replicas r n ns) m ≡ (if n == m then ns else known r m)
unfolding set_replicas
known-set_replicas r n [] m d = ground (arith, get-remove r.names n m d)
known-set_replicas r n (x ∷ xs) m d = ground (arith, get-set r.names n m (x ∷ xs))

set_replicas-Distinct :
    (r : RoundRobin) (n : String) (ns : List String)
    → Distinct r.names
    → Distinct (set_replicas r n ns).names
unfolding set_replicas
set_replicas-Distinct r n [] d = remove-Distinct r.names n d
set_replicas-Distinct r n (x ∷ xs) d = set-Distinct r.names n (x ∷ xs) d

forget-Agrees : (n : String) (s : AsyncDatabase) → Agrees s → Agrees (forget n s)
unfolding forget
forget-Agrees n s h = record {
  distinct_names = set_replicas-Distinct s.selector n [] h.distinct_names;
  distinct = remove-Distinct s.config.databases n h.distinct;
  same = λ m.
      let k = known-set_replicas s.selector n [] m h.distinct_names in
      let g = get-remove s.config.databases n m h.distinct in
      let before = h.same m in
      rw (k, g) (elim (Bool-cases (n == m)) [ inl e ↦ rw e refl | inr e ↦ rw e before ]);
}

swap-Agrees :
    (n : String) (db : DatabaseConfig) (s : AsyncDatabase) → Agrees s → Agrees (swap n db s)
swap-Agrees n db s h = record {
  distinct_names = set_replicas-Distinct s.selector n (replica_names db) h.distinct_names;
  distinct = set-Distinct s.config.databases n db h.distinct;
  same = λ m.
      let k = known-set_replicas s.selector n (replica_names db) m h.distinct_names in
      let g = get-set s.config.databases n m db in
      let before = h.same m in
      rw (k, g) (elim (Bool-cases (n == m)) [ inl e ↦ rw e refl | inr e ↦ rw e before ]);
}

-- A change of the registry, the executor and the list of dynamic names leaves the agreement.
other-Agrees :
    (s t : AsyncDatabase) → t.config ≡ s.config → t.selector ≡ s.selector → Agrees s → Agrees t
other-Agrees s t c r h = record {
  distinct_names = subst (λ (x : RoundRobin). Distinct x.names) (sym r) h.distinct_names;
  distinct = subst (λ (x : DbkitConfig). Distinct x.databases) (sym c) h.distinct;
  same = λ n.
      subst (λ (x : RoundRobin). known x n ≡ configured (get t.config.databases n)) (sym r)
        (subst (λ (x : DbkitConfig). known s.selector n ≡ configured (get x.databases n)) (sym c)
          (h.same n));
}

evict_over-Agrees :
    (limit : ℕ) (ns : List String) (s : AsyncDatabase) → Agrees s → Agrees (evict_over limit ns s)
unfolding evict_over purge
evict_over-Agrees limit [] s h = other-Agrees s _ refl refl h
evict_over-Agrees limit (n ∷ ns) s h =
    if-elim Agrees (ltb limit (length (n ∷ ns)))
      (λ _.
        evict_over-Agrees limit ns (forget n (purge n s))
          (forget-Agrees n (purge n s) (other-Agrees s _ refl refl h)))
      (λ _. other-Agrees s _ refl refl h)

evict-Agrees : (s : AsyncDatabase) → Agrees s → Agrees (evict_lru_databases s)
unfolding evict_lru_databases
evict-Agrees s h = by_limit s.config.max_databases
  where
    by_limit : (o : Option ℕ) → Agrees (evict_with o s)
    by_limit none = h
    by_limit (some limit) = evict_over-Agrees limit s.dynamic_lru s h

touch-Agrees : (n : String) (s : AsyncDatabase) → Agrees s → Agrees (touch_dynamic n s)
unfolding touch_dynamic
touch-Agrees n s h =
    if-elim Agrees (member n s.static_databases) (λ _. h) (λ _. other-Agrees s _ refl refl h)

install-Agrees :
    (n : String) (db : DatabaseConfig) (s : AsyncDatabase) → Agrees s → Agrees (install n db s)
unfolding install purge
install-Agrees n db s h = evict-Agrees (touch_dynamic n (swap n db (clean n s))) (
    touch-Agrees n (swap n db (clean n s)) (
      swap-Agrees n db (clean n s)
        (if-elim Agrees (has s.config.databases n) (λ _. other-Agrees s _ refl refl h) (λ _. h))))

get-names_of :
    (d : Dict String DatabaseConfig) (n : String)
    → or_else (get (names_of d) n) [] ≡ configured (get d n)
unfolding get
get-names_of [] n = refl
get-names_of ((j, db) ∷ d) n = elim (Bool-cases (j == n)) [
  | inl e ↦ rw e refl
  | inr e ↦ rw e (get-names_of d n)
]

has-names_of : (d : Dict String DatabaseConfig) (n : String) → has (names_of d) n ≡ has d n
unfolding get
has-names_of [] n = refl
has-names_of ((j, db) ∷ d) n = elim (Bool-cases (j == n)) [
  | inl e ↦ rw e refl
  | inr e ↦ rw e (has-names_of d n)
]

names_of-Distinct : (d : Dict String DatabaseConfig) → Distinct d → Distinct (names_of d)
names_of-Distinct [] h = tt
names_of-Distinct ((j, db) ∷ d) h = (has-names_of d j ∙ h.0, names_of-Distinct d h.1)

new_database-Agrees : (c : DbkitConfig) → Distinct c.databases → Agrees (new_database c)
unfolding new_database new
new_database-Agrees c h = record {
  distinct_names = names_of-Distinct c.databases h;
  distinct = h;
  same = get-names_of c.databases;
}

module _ (scheme : String → String) (create : TargetConfig → PoolConfig → Option ℕ) where
  connected-Agrees :
      (s : AsyncDatabase) (b : Bool) (r : AsyncEngineRegistry × Result DatabaseError EngineEntry)
      → Agrees s
      → Agrees (connected scheme create s b r).0
  connected-Agrees s b (g, ok e) h = other-Agrees s _ refl refl h
  connected-Agrees s b (g, err e) h = other-Agrees s _ refl refl h

  connect_primary-Agrees :
      (yes_no : Bool) (now : ℕ) (n : String) (b : Bool) (s : AsyncDatabase)
      → Agrees s
      → Agrees (connect_primary scheme create yes_no now n b s).0
  connect_primary-Agrees true now n b s h = connected-Agrees s b _ h
  connect_primary-Agrees false now n b s h = h

  register-Agrees :
      (now : ℕ) (n : String) (db : DatabaseConfig) (connect : Option Bool) (s : AsyncDatabase)
      → Agrees s
      → Agrees (register_database scheme create now n db connect s).0
  unfolding register_database
  register-Agrees now n db connect s h = by_check (check scheme create n db s)
    where
      by_check :
          (c : Result DatabaseError (Unit {0}))
          → Agrees (checked scheme create c now n db connect s).0
      by_check (err e) = h
      by_check (ok tt) =
          connect_primary-Agrees (or_else connect (s.started && db.primary.required)) now n
            (has s.config.databases n) (install n db s) (install-Agrees n db s h)

  registered-Agrees :
      (a : AsyncDatabase × Result DatabaseError Bool)
      → Agrees a.0
      → Agrees (registered scheme create a).0
  registered-Agrees (s, ok b) h = h
  registered-Agrees (s, err e) h = h

  module _ (same : DatabaseConfig → DatabaseConfig → Bool) where
    step-Agrees : (s : AsyncDatabase) (e : Event) → Agrees s → Agrees (step scheme create same s e)
    unfolding step ensure_database unregister_database close purge
    step-Agrees s (registers now n db connect) h = register-Agrees now n db connect s h
    step-Agrees s (ensures now n db connect) h =
        if-elim (λ (a : AsyncDatabase × Result DatabaseError Bool). Agrees a.0)
          (is_same scheme create same db (get s.config.databases n)) (λ _. touch-Agrees n s h)
          (λ _.
            registered-Agrees (register_database scheme create now n db connect s)
              (register-Agrees now n db connect s h))
    step-Agrees s (unregisters n) h =
        if-elim (λ (a : AsyncDatabase × Bool). Agrees a.0) (has s.config.databases n)
          (λ _.
            other-Agrees (forget n (purge n s)) _ refl refl
              (forget-Agrees n (purge n s) (other-Agrees s _ refl refl h)))
          (λ _. h)
    step-Agrees s closes h = other-Agrees s _ refl refl h

    run-Agrees :
        (s : AsyncDatabase) (es : List Event) → Agrees s → Agrees (run scheme create same s es)
    unfolding run
    run-Agrees s [] h = h
    run-Agrees s (e ∷ es) h = run-Agrees (step scheme create same s e) es (step-Agrees s e h)

-- A route that is handed out names a target of the configuration.
abbrev pub Served : AsyncDatabase × Result DatabaseError ResolvedRoute → Type 0
Served (s, ok r) = (x : TargetConfig) × (target_for s.config r ≡ ok x)
Served (s, err e) = Unit

by_name-elem :
    (rs : List TargetConfig) (i : ℕ) (n : String)
    → get_elem? (map (λ (r : TargetConfig). r.name) rs) i ≡ some n
    → (x : TargetConfig) × (by_name n rs ≡ some x)
by_name-elem [] i n h = cc
by_name-elem (r ∷ rs) zero n h =
    let named : r.name == n ≡ true = ground (arith, string_eq.eqb_iff r.name n) in
    (r, if-true _ _ named)
by_name-elem (r ∷ rs) (suc i) n h = elim (Bool-cases (r.name == n)) [
  | inl e ↦ (r, if-true _ _ e)
  | inr e ↦ let (x, found) = by_name-elem rs i n h in (x, if-false _ _ e ∙ found)
]

select-elem :
    (r : RoundRobin) (n shard : String) (name : String)
    → (select r n shard).1 ≡ some name
    → (i : ℕ) × (get_elem? (known r n) i ≡ some name)
unfolding select
select-elem r n shard name h = turn (known r n) h
  where
    turn :
        (ns : List String) → (rotate r n ns).1 ≡ some name → (i : ℕ) × (get_elem? ns i ≡ some name)
    turn [] g = cc
    turn (x ∷ xs) g = (_, g)

module _ {K : Type 0} (shards : String → K → Result DatabaseError String) where
  primary-Served :
      (s : AsyncDatabase) (t : DatabaseTarget K) (db : DatabaseConfig) (shard : String)
      → get s.config.databases t.database ≡ some db
      → Served (
        s,
        ok (record {
          database = t.database;
          shard_id = shard;
          role = primary;
          replica_name = none;
        }),
      )
  unfolding target_for
  primary-Served s t db shard e = (db.primary, rw e refl)

  selected-Served :
      (s : AsyncDatabase) (t : DatabaseTarget K) (db : DatabaseConfig) (shard : String)
      → Agrees s
      → get s.config.databases t.database ≡ some db
      → Served (selected shards t.database shard (select s.selector t.database shard) s)
  unfolding target_for
  selected-Served s t db shard h e =
      by_answer (select s.selector t.database shard) (select-elem s.selector t.database shard)
    where
      by_answer :
          (a : RoundRobin × Option String)
          → ((name : String)
              → a.1 ≡ some name
              → (i : ℕ) × (get_elem? (known s.selector t.database) i ≡ some name))
          → Served (selected shards t.database shard a s)
      by_answer (sel, none) found = (db.primary, rw e refl)
      by_answer (sel, some name) found =
          let (i, at) = found name refl in
          let names = h.same t.database ∙ ap configured e in
          let (x, stands) =
            by_name-elem db.replicas i name (sym (ap (λ ns. get_elem? ns i) names) ∙ at) in
          (x, rw (e, stands) refl)

  -- Whatever is registered, ensured, unregistered and evicted: a route that is handed out names a target.
  resolve-Served :
      (pinned : Bool) (t : DatabaseTarget K) (s : AsyncDatabase)
      → Agrees s
      → Served (resolve_target shards pinned t s)
  unfolding resolve_target
  resolve-Served pinned t s h = by_database (get s.config.databases t.database) refl
    where
      by_shard :
          (db : DatabaseConfig) (o : Result DatabaseError String)
          → get s.config.databases t.database ≡ some db
          → Served (routed shards pinned t db o s)
      by_shard db (err e) g = tt
      by_shard db (ok shard) g =
          if-elim Served (wants_replica t.role && not (is_empty db.replicas) && not pinned)
            (λ _. selected-Served s t db shard h g) (λ _. primary-Served s t db shard g)

      by_database :
          (o : Option DatabaseConfig)
          → get s.config.databases t.database ≡ o
          → Served (resolve_in shards pinned t o s)
      by_database none g = tt
      by_database (some db) g = by_shard db (shard_of shards t.database t.shard_key) g

-- From a configuration that names no database twice, whatever databases are registered, ensured,
-- unregistered and evicted, and in whatever order: a target that is resolved, inside a consistency scope or
-- outside, gets a route to a configured database, to its primary or to one of its replicas, so that the
-- engine registry finds a target for it.
pub run-resolves-Served :
    {K : Type 0} (shards : String → K → Result DatabaseError String) (scheme : String → String)
    (create : TargetConfig → PoolConfig → Option ℕ) (same : DatabaseConfig → DatabaseConfig → Bool)
    (c : DbkitConfig) (es : List Event) (pinned : Bool) (t : DatabaseTarget K)
    → Distinct c.databases
    → Served (resolve_target shards pinned t (run scheme create same (new_database c) es))
run-resolves-Served shards scheme create same c es pinned t h =
    resolve-Served shards pinned t (run scheme create same (new_database c) es)
      (run-Agrees scheme create same (new_database c) es (new_database-Agrees c h))
