-- ===== src/Database/Eviction.antt =====
-- The eviction brings the dynamic databases under `max_databases`.
use dbkit_sql.Prelude.{
  ℕ, String, Option, none, some, true, ◌≡◌, refl, ◌∙◌, sym, inl, inr, List, [], ◌∷◌, length, arith,
  ◌==◌, string_eq, if◌then◌else◌, ltb, Bool-cases,
}
use dbkit_sql.Prelude.Dict.{Dict, set, has, Distinct, get-set, set-Distinct}
use dbkit_sql.Config.{DatabaseConfig, DbkitConfig}
use dbkit_sql.Database.{
  AsyncDatabase, member, without, touch_dynamic, purge, forget, evict_over, evict_with,
  evict_lru_databases, install,
}
use dbkit_sql.Database.Dynamic.{Tracks, Inv, forget-Tracks, touch-Tracks, static-Tracks}
use dbkit_sql.Database.Dynamic.Names.{length-without, length-snoc}

module _ (c : DbkitConfig) (static : List String) where
  -- All of the invariant but the cap.
  pub record Loose (s : AsyncDatabase) : Type 0 where
    pub same_static : s.static_databases ≡ static
    pub same_cap : s.config.max_databases ≡ c.max_databases
    pub tracks : Tracks static s.dynamic_lru s.config.databases

  pub evict_over-Inv :
      (limit : ℕ) (ns : List String) (s : AsyncDatabase)
      → c.max_databases ≡ some limit
      → s.static_databases ≡ static
      → s.config.max_databases ≡ c.max_databases
      → Tracks static ns s.config.databases
      → Inv c static (evict_over limit ns s)
  unfolding evict_over purge forget
  evict_over-Inv limit [] s l e m h = record {
    same_static = e;
    same_cap = m;
    tracks = h;
    capped = λ k q. omega arith;
  }
  evict_over-Inv limit (n ∷ ns) s l e m h = elim (Bool-cases (ltb limit (length (n ∷ ns)))) [
    | inl over ↦ rw over (
        evict_over-Inv limit ns (forget n (purge n s)) l e m
          (forget-Tracks static ns n s.config.databases h))
    | inr within ↦
        rw within (record {
          same_static = e;
          same_cap = m;
          tracks = h;
          capped = λ k q. ground (arith, l, q);
        })
  ]

  pub evict-Inv : (s : AsyncDatabase) → Loose s → Inv c static (evict_lru_databases s)
  unfolding evict_lru_databases
  evict-Inv s h = by_cap s.config.max_databases refl
    where
      by_cap : (o : Option ℕ) → s.config.max_databases ≡ o → Inv c static (evict_with o s)
      by_cap none e = record {
        same_static = h.same_static;
        same_cap = h.same_cap;
        tracks = h.tracks;
        capped = λ limit q. cc (e, h.same_cap, q);
      }
      by_cap (some limit) e =
          evict_over-Inv limit s.dynamic_lru s (sym h.same_cap ∙ e) h.same_static h.same_cap
            h.tracks

  -- A name that is registered is used.
  pub touch-Loose :
      (n : String) (s : AsyncDatabase) (d : Dict String DatabaseConfig)
      → s.static_databases ≡ static
      → s.config.max_databases ≡ c.max_databases
      → Tracks static s.dynamic_lru d
      → Distinct s.config.databases
      → ((m : String) → has s.config.databases m ≡ (if n == m then true else has d m))
      → Loose (touch_dynamic n s)
  unfolding touch_dynamic
  touch-Loose n s d e k h dist same = elim (Bool-cases (member n s.static_databases)) [
    | inl is_static ↦ rw is_static (record {
      same_static = e;
      same_cap = k;
      tracks =
          static-Tracks static s.dynamic_lru n d s.config.databases (rw e at is_static) dist same h;
    })
    | inr is_dynamic ↦ rw is_dynamic (record {
      same_static = e;
      same_cap = k;
      tracks =
          touch-Tracks static s.dynamic_lru n d s.config.databases (rw e at is_dynamic) dist same h;
    })
  ]

  pub install-Inv :
      (n : String) (db : DatabaseConfig) (s : AsyncDatabase)
      → Inv c static s
      → Inv c static (install n db s)
  unfolding install purge
  install-Inv n db s h = elim (Bool-cases (has s.config.databases n)) [
    | inl old ↦ rw old (
        evict-Inv _ (
          touch-Loose n _ s.config.databases h.same_static h.same_cap h.tracks
            (set-Distinct s.config.databases n db h.tracks.distinct) now_has))
    | inr new ↦ rw new (
        evict-Inv _ (
          touch-Loose n _ s.config.databases h.same_static h.same_cap h.tracks
            (set-Distinct s.config.databases n db h.tracks.distinct) now_has))
  ]
    where
      now_has :
          (m : String)
          → has (set s.config.databases n db) m
            ≡ (if n == m then true else has s.config.databases m)
      now_has m = ground (arith, get-set s.config.databases n m db)

  -- The name is registered already: its use changes the order only.
  pub touch-Inv :
      (n : String) (s : AsyncDatabase)
      → has s.config.databases n ≡ true
      → Inv c static s
      → Inv c static (touch_dynamic n s)
  touch-Inv n s e h =
      let loose =
        touch-Loose n s s.config.databases h.same_static h.same_cap h.tracks h.tracks.distinct
          (λ m. ground (arith, string_eq.eqb_iff n m)) in
      record {
        same_static = loose.same_static;
        same_cap = loose.same_cap;
        tracks = loose.tracks;
        capped = λ limit q.
            unfold touch_dynamic in
            ground (
              arith,
              h.capped limit q,
              h.tracks.covered n e,
              h.same_static,
              length-without n s.dynamic_lru,
              length-snoc n (without n s.dynamic_lru),
            );
      }
