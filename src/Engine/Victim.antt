-- ===== src/Engine/Victim.antt =====
-- Which engine makes room for a new one, and what becomes of it.
use dbkit_sql.Prelude.{
  ℕ, ◌≤◌, ◌<◌, String, Option, none, some, true, ◌≡◌, refl, [], ◌∷◌, ◌++◌, All, length, arith, ◌==◌,
  string_eq, ltb, ltb→lt, ok, err, Bool-cases, inl, inr, if◌then◌else◌,
}
use dbkit_sql.Prelude.Dict.{Dict, get, remove, Distinct, get-set, get-remove, get-remove_self}
use dbkit_sql.Config.{DbkitConfig, PoolConfig, TargetConfig, resolved_pool}
use dbkit_sql.Routing.{raise_configuration}
use dbkit_sql.Engine.{
  AsyncEngineRegistry, EngineEntry, EngineKey, key_string, at_limit, pop_lru, oldest, get_locked,
  build,
}
use dbkit_sql.Engine.Bounds.{Inv}

-- No entry was used before this one.
abbrev pub LeastUsed : EngineEntry → Dict String EngineEntry → Type 0
LeastUsed v d = All (λ p. v.last_used ≤ p.1.last_used) d

weaken :
    (u v : EngineEntry) (d : Dict String EngineEntry)
    → u.last_used ≤ v.last_used
    → LeastUsed v d
    → LeastUsed u d
weaken u v [] h a = tt
weaken u v (p ∷ d) h a = (omega arith, weaken u v d h a.1)

oldest_lem :
    (k : String) (e : EngineEntry) (d : Dict String EngineEntry)
    → Distinct ((k, e) ∷ d)
    → (v : EngineEntry) × (get ((k, e) ∷ d) (oldest k e.last_used d) ≡ some v)
      × LeastUsed v ((k, e) ∷ d)
unfolding oldest get
oldest_lem k e [] h = (e, ground (arith, string_eq.eqb_iff k k), (omega arith, tt))
oldest_lem k e ((j, f) ∷ d) h = elim (Bool-cases (ltb f.last_used e.last_used)) [
  | inl earlier ↦
      let (v, found, least) = oldest_lem j f d h.1 in
      rw earlier (
        v,
        ground (arith, string_eq.eqb_iff k (oldest j f.last_used d)),
        (omega (arith, ltb→lt f.last_used e.last_used earlier), least),
      )
  | inr later ↦
      let (v, found, least) = oldest_lem k e d (ground arith, h.1.1) in
      let f_later : e.last_used ≤ f.last_used = ground arith in
      rw later (
        v,
        ground (
          arith,
          string_eq.eqb_iff k (oldest k e.last_used d),
          string_eq.eqb_iff j (oldest k e.last_used d),
        ),
        (least.0, (omega (arith, least.0), least.1)),
      )
]

-- The victim stands in the entries, under a key, and is what they lose.
record Popped (d : Dict String EngineEntry) : Type 0 where
  key : String
  victim : EngineEntry
  pops : pop_lru d ≡ (some victim, remove d key)
  was_live : get d key ≡ some victim
  least_used : LeastUsed victim d

pop_lru_lem : (d : Dict String EngineEntry) → 0 < length d → Distinct d → Popped d
unfolding pop_lru
pop_lru_lem [] n h = elim n [ ]
pop_lru_lem ((k, e) ∷ d) n h =
    let (v, found, least) = oldest_lem k e d h in
    record {
      key = oldest k e.last_used d;
      victim = v;
      pops = rw found refl;
      was_live = found;
      least_used = least;
    }

module _ (scheme : String → String) (create : TargetConfig → PoolConfig → Option ℕ)
    (c : DbkitConfig) (now : ℕ) (key : EngineKey) (t : TargetConfig) (s : AsyncEngineRegistry) where
  -- The cap is reached and the asked engine is not there, in a registry that evicts.
  pub record Full : Type 0 where
    pub limit : ℕ
    pub capped : c.max_engines ≡ some limit
    pub reached : limit ≤ length s.entries
    pub evicts : c.evict_lru_engines ≡ true
    pub absent : get s.entries (key_string key) ≡ none
    pub live : 0 < length s.entries

  full-lem :
      Full
      → get_locked scheme create c now key t s
        ≡ build scheme create c now key t (pop_lru s.entries).0 s.disposed (pop_lru s.entries).1
  unfolding get_locked at_limit
  full-lem f =
      let limited : at_limit scheme create c s.entries ≡ true =
        ground (arith, f.capped, f.reached) in
      ground (arith, f.absent, limited, f.evicts)

  abbrev pub new_entry : ℕ → EngineEntry
  new_entry engine = record { key = key; engine = engine; target = t; last_used = now }

  -- What the entries and the log are once `victim` made way for an engine.
  pub record Replaced (k : String) (victim new : EngineEntry) (s' : AsyncEngineRegistry)
      : Type 0 where
    pub was_live : get s.entries k ≡ some victim
    pub least_used : LeastUsed victim s.entries
    pub logged : s'.disposed ≡ s.disposed ++ victim.engine ∷ []
    pub rest :
        (j : String)
        → get s'.entries j
          ≡ (if key_string key == j then some new else if k == j then none else get s.entries j)

  -- At the cap with eviction on, creating an engine for a key that is not there removes exactly one live
  -- engine, one that no other was used before, disposes it, and keeps every other; the new engine is
  -- returned and stands under its key.
  pub evicts_least_used :
      (engine : ℕ)
      → Inv c s
      → Full
      → create t (resolved_pool t c.defaults) ≡ some engine
      → (k : String) × (victim : EngineEntry) × ((get_locked scheme create c now key t s).1
          ≡ ok (new_entry engine))
        × Replaced k victim (new_entry engine) (get_locked scheme create c now key t s).0
  evicts_least_used engine h f made =
      let p = pop_lru_lem s.entries f.live h.distinct in
      rw (full-lem f, p.pops, made)
        (
          p.key,
          p.victim,
          refl,
          record {
            was_live = p.was_live;
            least_used = p.least_used;
            logged = refl;
            rest = λ j. ground (
              arith,
              get-set (remove s.entries p.key) (key_string key) j (new_entry engine),
              get-remove s.entries p.key j h.distinct,
            );
          },
        )

  -- At the cap with eviction on, if SQLAlchemy refuses to create the engine for a key that is not
  -- there, a live engine is lost: it is no longer among the entries, and yet none is disposed.
  pub failed_build_leaks :
      Inv c s
      → Full
      → create t (resolved_pool t c.defaults) ≡ none
      → (k : String) × (victim : EngineEntry) × (get s.entries k ≡ some victim)
        × (get_locked scheme create c now key t s ≡ (
          record { entries = remove s.entries k; disposed = s.disposed },
          err (raise_configuration "failed to create engine"),
        ))
        × (get (remove s.entries k) k ≡ none)
  failed_build_leaks h f refused =
      let p = pop_lru_lem s.entries f.live h.distinct in
      (
        p.key,
        p.victim,
        p.was_live,
        rw (full-lem f, p.pops, refused) refl,
        get-remove_self s.entries p.key h.distinct,
      )
