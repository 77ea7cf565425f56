-- ===== src/Database/Removal.antt =====
-- What an unregistration removes, and what a registration leaves alone.
use dbkit_sql.Prelude.{
  ℕ, String, Option, none, some, Bool, true, false, ◌≡◌, refl, ap, ◌∙◌, List, [], ◌∷◌, length,
  arith, All, ◌==◌, string_eq, if◌then◌else◌, Result, ok, err, ltb, Bool-cases, inl, inr, or_else,
  ◌&&◌,
}
use dbkit_sql.Prelude.Dict.{
  Dict, get, set, remove, has, Distinct, get-set, get-remove, set-Distinct, remove-Distinct,
}
use dbkit_sql.Errors.{DatabaseError}
use dbkit_sql.Engine.{AsyncEngineRegistry, EngineEntry, get_engine}
use dbkit_sql.Engine.Disposal.{dispose_database, others}
use dbkit_sql.Config.{DatabaseConfig, DbkitConfig, PoolConfig, TargetConfig}
use dbkit_sql.Routing.{DatabaseTarget, raise_routing}
use dbkit_sql.Database.{
  AsyncDatabase, member, without, touch_dynamic, purge, forget, evict_over, evict_with,
  evict_lru_databases, install, check, checked, connect_primary, connected, register_database,
  unregister_database, primary_route, clean, swap,
}
use dbkit_sql.Database.Target.{resolve_target}
use dbkit_sql.Database.Dynamic.{Tracks, Inv}
use dbkit_sql.Database.Dynamic.Names.{member-without, member-snoc}

-- No engine of this database is live.
abbrev pub NoEngine : String → Dict String EngineEntry → Type 0
NoEngine db d = All (λ p. (p.1.key.database == db) ≡ false) d

others-NoEngine : (db : String) (d : Dict String EngineEntry) → NoEngine db (others db d)
unfolding others
others-NoEngine db [] = tt
others-NoEngine db ((k, e) ∷ d) = elim (Bool-cases (e.key.database == db)) [
  | inl same ↦ rw same (others-NoEngine db d)
  | inr other ↦ rw other (other, others-NoEngine db d)
]

-- Where the mapping names no database twice, unregistering a known database takes it out of the
-- mapping, which keeps every other as before, and out of the registry, which then holds no engine of
-- it; a target with its name cannot be resolved in the state that is left.
unregister-removes :
    {K : Type 0} (shards : String → K → Result DatabaseError String) (pinned : Bool)
    (t : DatabaseTarget K) (s : AsyncDatabase)
    → Distinct s.config.databases
    → has s.config.databases t.database ≡ true
    → let s' = (unregister_database t.database s).0 in
      ((m : String)
        → get s'.config.databases m ≡ (if t.database == m then none else get s.config.databases m))
      × NoEngine t.database s'.registry.entries
      × (resolve_target shards pinned t s' ≡ (s', err (raise_routing "unknown database")))
unfolding unregister_database purge forget dispose_database resolve_target
unregister-removes shards pinned t s dist known =
    let gone : get (remove s.config.databases t.database) t.database ≡ none = ground (
      arith,
      get-remove s.config.databases t.database t.database dist,
      string_eq.eqb_iff t.database t.database,
    ) in
    rw known (
      (λ m. get-remove s.config.databases t.database m dist),
      others-NoEngine t.database s.registry.entries,
      rw gone refl,
    )

evict_over-get :
    (limit : ℕ) (ns : List String) (m : String) (s : AsyncDatabase)
    → member m ns ≡ false
    → Distinct s.config.databases
    → get (evict_over limit ns s).config.databases m ≡ get s.config.databases m
unfolding evict_over purge forget member
evict_over-get limit [] m s f dist = refl
evict_over-get limit (n ∷ ns) m s f dist = elim (Bool-cases (ltb limit (length (n ∷ ns)))) [
  | inl over ↦ rw over (
      evict_over-get limit ns m (forget n (purge n s)) (ground arith)
        (remove-Distinct s.config.databases n dist)
      ∙ ground (arith, get-remove s.config.databases n m dist))
  | inr within ↦ rw within refl
]

-- What follows the change of the mapping leaves a name that is not evictable alone.
evict-get :
    (m : String) (s : AsyncDatabase)
    → member m s.dynamic_lru ≡ false
    → Distinct s.config.databases
    → get (evict_lru_databases s).config.databases m ≡ get s.config.databases m
unfolding evict_lru_databases
evict-get m s f dist = by_cap s.config.max_databases
  where
    by_cap : (o : Option ℕ) → get (evict_with o s).config.databases m ≡ get s.config.databases m
    by_cap none = refl
    by_cap (some limit) = evict_over-get limit s.dynamic_lru m s f dist

touched-member :
    (static : List String) (n m : String) (s : AsyncDatabase) (d : Dict String DatabaseConfig)
    → Tracks static s.dynamic_lru d
    → (n == m) ≡ false
    → member m static ≡ true
    → member m (touch_dynamic n s).dynamic_lru ≡ false
unfolding touch_dynamic
touched-member static n m s d h ne st = ground (
  arith,
  h.disjoint m,
  member-snoc n m (without n s.dynamic_lru),
  member-without n m s.dynamic_lru h.no_repeat,
)

touched-databases : (n : String) (s : AsyncDatabase) → (touch_dynamic n s).config ≡ s.config
unfolding touch_dynamic
touched-databases n s = ground arith

pub clean-config : (n : String) (s : AsyncDatabase) → (clean n s).config ≡ s.config
unfolding purge
clean-config n s = ground arith

clean-dynamic : (n : String) (s : AsyncDatabase) → (clean n s).dynamic_lru ≡ s.dynamic_lru
unfolding purge
clean-dynamic n s = ground arith

install-get :
    (static : List String) (n m : String) (db : DatabaseConfig) (s : AsyncDatabase)
    → Tracks static s.dynamic_lru s.config.databases
    → (n == m) ≡ false
    → member m static ≡ true
    → get (install n db s).config.databases m ≡ get s.config.databases m
unfolding install
install-get static n m db s h ne st =
    kept (swap n db (clean n s)) (ap (λ c. set c.databases n db) (clean-config n s))
      (clean-dynamic n s)
  where
    kept :
        (x : AsyncDatabase)
        → x.config.databases ≡ set s.config.databases n db
        → x.dynamic_lru ≡ s.dynamic_lru
        → get (evict_lru_databases (touch_dynamic n x)).config.databases m
          ≡ get s.config.databases m
    kept x e d =
        evict-get m (touch_dynamic n x)
          (touched-member static n m x s.config.databases (rw d h) ne st)
          (rw (touched-databases n x, e) (set-Distinct s.config.databases n db h.distinct))
        ∙ rw (touched-databases n x, e) (ground (arith, get-set s.config.databases n m db))

module _ (scheme : String → String) (create : TargetConfig → PoolConfig → Option ℕ) where
  pub connect_primary-config :
      (b : Bool) (now : ℕ) (n : String) (replaced : Bool) (s : AsyncDatabase)
      → (connect_primary scheme create b now n replaced s).0.config ≡ s.config
  connect_primary-config false now n replaced s = refl
  connect_primary-config true now n replaced s =
      by_answer (get_engine scheme create s.config now (primary_route n) s.registry)
    where
      by_answer :
          (a : AsyncEngineRegistry × Result DatabaseError EngineEntry)
          → (connected scheme create s replaced a).0.config ≡ s.config
      by_answer (r, ok e) = refl
      by_answer (r, err e) = refl

  -- In a state that keeps the invariant of the dynamic databases, registering a database neither
  -- changes nor evicts a statically configured one of another name, whether the registration succeeds
  -- or raises.
  pub register-static :
      (c : DbkitConfig) (static : List String) (now : ℕ) (n m : String) (db : DatabaseConfig)
      (connect : Option Bool) (s : AsyncDatabase)
      → Inv c static s
      → (n == m) ≡ false
      → member m static ≡ true
      → get (register_database scheme create now n db connect s).0.config.databases m
        ≡ get s.config.databases m
  unfolding register_database checked
  register-static c static now n m db connect s h ne st = by_check (check scheme create n db s)
    where
      by_check :
          (o : Result DatabaseError (Unit {0}))
          → get (checked scheme create o now n db connect s).0.config.databases m
            ≡ get s.config.databases m
      by_check (err e) = refl
      by_check (ok u) =
          rw
            (connect_primary-config (or_else connect (s.started && db.primary.required)) now n
              (has s.config.databases n) (install n db s))
            (install-get static n m db s h.tracks ne st)
