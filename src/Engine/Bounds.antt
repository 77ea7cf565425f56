-- ===== src/Engine/Bounds.antt =====
-- The invariant of the registry: keys, and the cap on live engines.
pub mod Rules
use dbkit_sql.Prelude.{
  ℕ, suc, ◌+◌, ◌≤◌, ◌<◌, max, String, Option, none, some, Bool, true, false, ◌≡◌, refl, ◌⊎◌, inl,
  inr, List, [], ◌∷◌, All, length, arith, ◌==◌, string_eq, leb, Result, ok, err, Bool-cases,
  Option-cases, if◌then◌else◌,
}
use dbkit_sql.Prelude.Dict.{
  Dict, get, set, remove, has, Distinct, set-Distinct, remove-Distinct, length-set, length-remove,
  set-All, remove-All, get-All,
}
use dbkit_sql.Errors.{DatabaseError}
use dbkit_sql.Config.{DbkitConfig, PoolConfig, TargetConfig, resolved_pool}
use dbkit_sql.Routing.{ResolvedRoute}
use dbkit_sql.Engine.{
  AsyncEngineRegistry, EngineEntry, EngineKey, key_string, key_for, at_limit, pop_lru, oldest,
  get_locked, get_engine, empty_registry, use_entry, build, built,
}
use dbkit_sql.Engine.Events.{Event, gets, creates, disposes, disposes_database, closes, step, run}
use dbkit_sql.Engine.Disposal.{dispose_one, dispose_database, dispose_all, others}
use dbkit_sql.Engine.Bounds.Rules.{locked-rule, fast-rule, get-rule}

abbrev Keyed : String × EngineEntry → Type 0
Keyed p = key_string p.1.key ≡ p.0

-- Every entry stands under its own key, no key twice, and there are at most `max_engines` entries (one,
-- where `max_engines` is 0).
pub record Inv (c : DbkitConfig) (s : AsyncEngineRegistry) : Type 0 where
  pub distinct : Distinct s.entries
  pub keyed : All Keyed s.entries
  pub bounded : (n : ℕ) → c.max_engines ≡ some n → length s.entries ≤ max n 1

pub oldest-has :
    (k : String) (t : ℕ) (d : Dict String EngineEntry)
    → (oldest k t d ≡ k) ⊎ (has d (oldest k t d) ≡ true)
unfolding oldest get
oldest-has k t [] = inl refl
oldest-has k t ((j, e) ∷ d) = ground (
  arith,
  oldest-has j e.last_used d,
  oldest-has k t d,
  string_eq.eqb_iff j (oldest j e.last_used d),
)

length-pop_lru :
    (k : String) (e : EngineEntry) (d : Dict String EngineEntry)
    → length (pop_lru ((k, e) ∷ d)).1 ≡ length d
unfolding pop_lru get
length-pop_lru k e d = ground (
  arith,
  oldest-has k e.last_used d,
  length-remove ((k, e) ∷ d) (oldest k e.last_used d),
  string_eq.eqb_iff k (oldest k e.last_used d),
)

length-pop_lru-le :
    (d : Dict String EngineEntry) (n : ℕ) → length d ≤ max n 1 → length (pop_lru d).1 < max n 1
length-pop_lru-le [] n h = unfold pop_lru in omega arith
length-pop_lru-le ((k, e) ∷ d) n h = omega (arith, length-pop_lru k e d)

pop_lru-Distinct : (d : Dict String EngineEntry) → Distinct d → Distinct (pop_lru d).1
unfolding pop_lru
pop_lru-Distinct [] h = tt
pop_lru-Distinct ((k, e) ∷ d) h = remove-Distinct ((k, e) ∷ d) (oldest k e.last_used d) h

pop_lru-All :
    (P : String × EngineEntry → Type 0) (d : Dict String EngineEntry)
    → All P d
    → All P (pop_lru d).1
unfolding pop_lru
pop_lru-All P [] h = tt
pop_lru-All P ((k, e) ∷ d) h = remove-All P ((k, e) ∷ d) (oldest k e.last_used d) h

others-Distinct :
    (db k : String) (d : Dict String EngineEntry) → has d k ≡ false → has (others db d) k ≡ false
unfolding others get
others-Distinct db k [] h = h
others-Distinct db k ((j, e) ∷ d) h = ground (arith, others-Distinct db k d)

others-keeps-Distinct :
    (db : String) (d : Dict String EngineEntry) → Distinct d → Distinct (others db d)
unfolding others get
others-keeps-Distinct db [] h = tt
others-keeps-Distinct db ((j, e) ∷ d) h =
    ground (arith, others-keeps-Distinct db d h.1, others-Distinct db j d h.0)

others-All :
    (P : String × EngineEntry → Type 0) (db : String) (d : Dict String EngineEntry)
    → All P d
    → All P (others db d)
unfolding others
others-All P db [] h = tt
others-All P db ((j, e) ∷ d) h = elim (Bool-cases (e.key.database == db)) [
  | inl same ↦ rw same (others-All P db d h.1)
  | inr other ↦ rw other (h.0, others-All P db d h.1)
]

length-others-le : (db : String) (d : Dict String EngineEntry) → length (others db d) ≤ length d
unfolding others
length-others-le db [] = omega arith
length-others-le db ((j, e) ∷ d) = ground (arith, length-others-le db d)

module _ (scheme : String → String) (create : TargetConfig → PoolConfig → Option ℕ)
    (c : DbkitConfig) where
  at_limit-room :
      (d : Dict String EngineEntry) (n : ℕ)
      → at_limit scheme create c d ≡ false
      → c.max_engines ≡ some n
      → length d < max n 1
  unfolding at_limit
  at_limit-room d n h m = ground arith

  use_entry-Inv :
      (now : ℕ) (k : String) (e : EngineEntry) (s : AsyncEngineRegistry)
      → Inv c s
      → get s.entries k ≡ some e
      → Inv c (use_entry scheme create c now k e s).0
  use_entry-Inv now k e s h g =
      let e' : EngineEntry = record e { last_used = now } in
      record {
        distinct = set-Distinct s.entries k e' h.distinct;
        keyed =
            set-All Keyed s.entries k e' h.keyed
              (get-All (λ j x. key_string x.key ≡ j) s.entries k e h.keyed g);
        bounded = λ n m. ground (arith, length-set s.entries k e', h.bounded n m);
      }

  built-Inv :
      (now : ℕ) (key : EngineKey) (t : TargetConfig) (victim : Option EngineEntry) (log : List ℕ)
      (d : Dict String EngineEntry) (o : Option ℕ)
      → Distinct d
      → All Keyed d
      → ((n : ℕ) → c.max_engines ≡ some n → length d < max n 1)
      → Inv c (built scheme create c now key t victim log d o).0
  built-Inv now key t victim log d none dist k room = record {
    distinct = dist;
    keyed = k;
    bounded = λ n m. omega (arith, room n m);
  }
  built-Inv now key t victim log d (some engine) dist k room =
      let e : EngineEntry = record { key = key; engine = engine; target = t; last_used = now } in
      record {
        distinct = set-Distinct d (key_string key) e dist;
        keyed = set-All Keyed d (key_string key) e k refl;
        bounded = λ n m. ground (arith, length-set d (key_string key) e, room n m);
      }

  module _ (now : ℕ) (key : EngineKey) (t : TargetConfig) (s : AsyncEngineRegistry)
      (h : Inv c s) where
    evicting-Inv :
        Inv c
          (build scheme create c now key t (pop_lru s.entries).0 s.disposed (pop_lru s.entries).1).0
    evicting-Inv =
        built-Inv now key t (pop_lru s.entries).0 s.disposed (pop_lru s.entries).1
          (create t (resolved_pool t c.defaults)) (pop_lru-Distinct s.entries h.distinct)
          (pop_lru-All Keyed s.entries h.keyed)
          (λ n m. length-pop_lru-le s.entries n (h.bounded n m))

    fresh-Inv :
        at_limit scheme create c s.entries ≡ false
        → Inv c (build scheme create c now key t none s.disposed s.entries).0
    fresh-Inv l =
        built-Inv now key t none s.disposed s.entries (create t (resolved_pool t c.defaults))
          h.distinct h.keyed (λ n m. at_limit-room s.entries n l m)

    get_locked-Inv : Inv c (get_locked scheme create c now key t s).0
    get_locked-Inv =
        locked-rule scheme create c now key t s (λ x. Inv c x.0)
          (λ e g. use_entry-Inv now (key_string key) e s h g) (λ g v. h) (λ g l v. evicting-Inv)
          (λ g l. fresh-Inv l)

  get_engine-Inv :
      (now : ℕ) (r : ResolvedRoute) (s : AsyncEngineRegistry)
      → Inv c s
      → Inv c (get_engine scheme create c now r s).0
  get_engine-Inv now r s h =
      get-rule scheme create c now r s (λ x. Inv c x.0) (λ e. h)
        (λ t.
          let key = key_for scheme create c r t in
          fast-rule scheme create c now key t s (λ x. Inv c x.0)
            (λ e g. use_entry-Inv now (key_string key) e s h g) (λ g v. h)
            (λ g l v. evicting-Inv now key t s h) (λ g l. fresh-Inv now key t s h l) r refl)

  dispose_one-Inv : (k : String) (s : AsyncEngineRegistry) → Inv c s → Inv c (dispose_one k s).0
  unfolding dispose_one
  dispose_one-Inv k s h = elim (Option-cases (get s.entries k)) [
    | inl missing ↦ rw missing h
    | inr (e, found) ↦ rw found (record {
      distinct = remove-Distinct s.entries k h.distinct;
      keyed = remove-All Keyed s.entries k h.keyed;
      bounded = λ n m. ground (arith, length-remove s.entries k, h.bounded n m);
    })
  ]

  dispose_database-Inv :
      (db : String) (s : AsyncEngineRegistry) → Inv c s → Inv c (dispose_database db s).0
  unfolding dispose_database
  dispose_database-Inv db s h = record {
    distinct = others-keeps-Distinct db s.entries h.distinct;
    keyed = others-All Keyed db s.entries h.keyed;
    bounded = λ n m. omega (arith, length-others-le db s.entries, h.bounded n m);
  }

  -- Every event keeps the invariant, a creation under the lock that was looked up long before included.
  pub step-Inv : (s : AsyncEngineRegistry) (e : Event) → Inv c s → Inv c (step scheme create c s e)
  unfolding step
  step-Inv s (gets now r) h = get_engine-Inv now r s h
  step-Inv s (creates now r t) h = get_locked-Inv now (key_for scheme create c r t) t s h
  step-Inv s (disposes k) h = dispose_one-Inv k s h
  step-Inv s (disposes_database db) h = dispose_database-Inv db s h
  step-Inv s closes h =
      unfold dispose_all in record { distinct = tt; keyed = tt; bounded = λ n m. omega arith }

  pub run-Inv :
      (s : AsyncEngineRegistry) (es : List Event) → Inv c s → Inv c (run scheme create c s es)
  unfolding run
  run-Inv s [] h = h
  run-Inv s (e ∷ es) h = run-Inv (step scheme create c s e) es (step-Inv s e h)

  -- Whatever tasks do to a new registry and in whatever order, it never holds more engines than
  -- `max_engines`, where that is set and at least 1, never two under one key, and each under its own key.
  pub run-empty-Inv : (es : List Event) → Inv c (run scheme create c empty_registry es)
  run-empty-Inv es =
      run-Inv empty_registry es (
        unfold empty_registry in record { distinct = tt; keyed = tt; bounded = λ n m. omega arith })
