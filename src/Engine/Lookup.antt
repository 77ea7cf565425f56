-- ===== src/Engine/Lookup.antt =====
-- What `get` answers: the engine of the route, a live one whenever there is one.
use dbkit_sql.Prelude.{
  ℕ, String, Option, none, some, ◌≡◌, refl, List, arith, string_eq, Result, ok, err,
}
use dbkit_sql.Prelude.Dict.{Dict, get, set, get-set, get-All}
use dbkit_sql.Errors.{DatabaseError}
use dbkit_sql.Config.{DbkitConfig, PoolConfig, TargetConfig, resolved_pool}
use dbkit_sql.Routing.{ResolvedRoute}
use dbkit_sql.Engine.{
  AsyncEngineRegistry, EngineEntry, EngineKey, key_string, key_for, target_for, pop_lru, built,
  get_engine, get_for,
}
use dbkit_sql.Engine.Bounds.{Inv}
use dbkit_sql.Engine.Bounds.Rules.{fast-rule}

-- The answer is an entry of this key that the registry now holds, just used; an error is only possible
-- where no engine of this key was live.
abbrev pub Serves :
    ℕ
    → String
    → AsyncEngineRegistry
    → AsyncEngineRegistry × Result DatabaseError EngineEntry
    → Type 0
Serves now k s (s', ok e) =
    (key_string e.key ≡ k) × (get s'.entries k ≡ some e) × (e.last_used ≡ now)
Serves now k s (s', err e) = get s.entries k ≡ none

get-set_self :
    (d : Dict String EngineEntry) (k : String) (e : EngineEntry) → get (set d k e) k ≡ some e
get-set_self d k e = ground (arith, get-set d k k e, string_eq.eqb_iff k k)

module _ (scheme : String → String) (create : TargetConfig → PoolConfig → Option ℕ)
    (c : DbkitConfig) where
  built-Serves :
      (now : ℕ) (key : EngineKey) (t : TargetConfig) (victim : Option EngineEntry) (log : List ℕ)
      (d : Dict String EngineEntry) (s : AsyncEngineRegistry) (o : Option ℕ)
      → get s.entries (key_string key) ≡ none
      → Serves now (key_string key) s (built scheme create c now key t victim log d o)
  built-Serves now key t victim log d s none absent = absent
  built-Serves now key t victim log d s (some engine) absent =
      (refl, get-set_self d (key_string key) _, refl)

  -- In a registry that keeps its invariant, `get` for a route with a target returns an engine under the
  -- key of the route, which the registry then holds as just used; it raises only if no such engine was
  -- live before.
  pub get_engine-Serves :
      (now : ℕ) (r : ResolvedRoute) (t : TargetConfig) (s : AsyncEngineRegistry)
      → Inv c s
      → target_for c r ≡ ok t
      → Serves now (key_string (key_for scheme create c r t)) s (get_engine scheme create c now r s)
  unfolding get_engine
  get_engine-Serves now r t s h e =
      let key = key_for scheme create c r t in
      let answer =
        fast-rule scheme create c now key t s (Serves now (key_string key) s)
          (λ e g. (
            get-All (λ j x. key_string x.key ≡ j) s.entries (key_string key) e h.keyed g,
            get-set_self s.entries (key_string key) _,
            refl,
          ))
          (λ g v. g)
          (λ g l v.
            built-Serves now key t (pop_lru s.entries).0 s.disposed (pop_lru s.entries).1 s
              (create t (resolved_pool t c.defaults)) g)
          (λ g l.
            built-Serves now key t none s.disposed s.entries s
              (create t (resolved_pool t c.defaults)) g)
          r refl in
      rw (e, get_for) answer
