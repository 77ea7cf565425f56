-- ===== src/Engine/Bounds/Rules.antt =====
-- One rule for each way in which `get` can end.
use dbkit_sql.Prelude.{
  ℕ, Option, none, some, Bool, true, false, ◌≡◌, refl, Result, ok, err, String, string_eq,
}
use dbkit_sql.Prelude.Dict.{get}
use dbkit_sql.Errors.{DatabaseError}
use dbkit_sql.Config.{DbkitConfig, PoolConfig, TargetConfig}
use dbkit_sql.Routing.{ResolvedRoute, raise_configuration}
use dbkit_sql.Engine.{
  AsyncEngineRegistry, EngineEntry, EngineKey, key_string, key_for, at_limit, pop_lru, use_entry,
  build, make_room, looked_up, get_locked, fast, get_for, get_engine, target_for,
}

module _ {ℓ} (scheme : String → String) (create : TargetConfig → PoolConfig → Option ℕ)
    (c : DbkitConfig) (now : ℕ) (key : EngineKey) (t : TargetConfig) (s : AsyncEngineRegistry)
    (P : AsyncEngineRegistry × Result DatabaseError EngineEntry → Type ℓ)
    (hit : (e : EngineEntry)
      → get s.entries (key_string key) ≡ some e
      → P (use_entry scheme create c now (key_string key) e s))
    (refused : get s.entries (key_string key) ≡ none
      → c.evict_lru_engines ≡ false
      → P (s, err (raise_configuration "engine limit reached")))
    (evicts : get s.entries (key_string key) ≡ none
      → at_limit scheme create c s.entries ≡ true
      → c.evict_lru_engines ≡ true
      → P (build scheme create c now key t (pop_lru s.entries).0 s.disposed (pop_lru s.entries).1))
    (fresh : get s.entries (key_string key) ≡ none
      → at_limit scheme create c s.entries ≡ false
      → P (build scheme create c now key t none s.disposed s.entries)) where
  room-rule :
      (evict : Bool)
      → c.evict_lru_engines ≡ evict
      → get s.entries (key_string key) ≡ none
      → at_limit scheme create c s.entries ≡ true
      → P (make_room scheme create c now key t s evict)
  room-rule true v g l = evicts g l v
  room-rule false v g l = refused g v

  looked_up-rule :
      (o : Option EngineEntry) (full : Bool)
      → get s.entries (key_string key) ≡ o
      → at_limit scheme create c s.entries ≡ full
      → P (looked_up scheme create c now key t s o full)
  looked_up-rule (some e) full g l = hit e g
  looked_up-rule none true g l = room-rule c.evict_lru_engines refl g l
  looked_up-rule none false g l = fresh g l

  pub locked-rule : P (get_locked scheme create c now key t s)
  unfolding get_locked
  locked-rule =
      looked_up-rule (get s.entries (key_string key)) (at_limit scheme create c s.entries) refl refl

  pub fast-rule :
      (r : ResolvedRoute)
      → key_for scheme create c r t ≡ key
      → P (
          fast scheme create c now r t s (get s.entries (key_string (key_for scheme create c r t))))
  fast-rule r k = rw k (look (get s.entries (key_string key)) refl)
    where
      look :
          (o : Option EngineEntry)
          → get s.entries (key_string key) ≡ o
          → P (fast scheme create c now r t s o)
      look (some e) g = rw k (hit e g)
      look none g = rw k locked-rule

module _ {ℓ} (scheme : String → String) (create : TargetConfig → PoolConfig → Option ℕ)
    (c : DbkitConfig) (now : ℕ) (r : ResolvedRoute) (s : AsyncEngineRegistry)
    (P : AsyncEngineRegistry × Result DatabaseError EngineEntry → Type ℓ)
    (failed : (e : DatabaseError) → P (s, err e))
    (located : (t : TargetConfig)
      → P (
          fast scheme create c now r t s
            (get s.entries (key_string (key_for scheme create c r t))))) where
  for-rule : (o : Result DatabaseError TargetConfig) → P (get_for scheme create c now r o s)
  for-rule (err e) = failed e
  for-rule (ok t) = located t

  pub get-rule : P (get_engine scheme create c now r s)
  unfolding get_engine
  get-rule = for-rule (target_for c r)
