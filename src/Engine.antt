-- ===== src/Engine.antt =====
-- _core/keys.py and the registry of _async/engine.py. An engine is known by the number that SQLAlchemy's
-- `create_async_engine` (here `create`, which may raise) gives; `scheme` is `urlsplit(url).scheme`.
-- Metrics and the attaching of pool listeners are left out; disposals are kept in a log,
-- and what the dispose of an evicted engine raises is left out: it comes after all changes of the registry.
pub mod Disposal
pub mod Events
pub mod Bounds
pub mod Victim
pub mod Lookup
mod Examples
use dbkit_sql.Prelude.{
  ℕ, zero, suc, ◌+◌, max, String, Option, none, some, Bool, true, false, List, [], ◌∷◌, ◌++◌, map,
  ltb, leb, length, ◌==◌, string_eq, or_else, if◌then◌else◌, ◌<>◌, not, Result, ok, err, ◌||◌,
}
use dbkit_sql.Prelude.Dict.{Dict, get, set, remove}
use dbkit_sql.Errors.{DatabaseError}
use dbkit_sql.Config.{DatabaseConfig, DbkitConfig, PoolConfig, TargetConfig, driver, resolved_pool}
use dbkit_sql.Routing.{
  ResolvedRoute, RouteRole, primary, replica, raise_routing, raise_configuration,
}

pub record EngineKey : Type 0 where
  pub environment : String
  pub database : String
  pub shard_id : String
  pub role : String
  pub driver : String

-- EngineKey.__str__
unfoldable pub key_string : EngineKey → String
key_string k =
    k.environment <> ":" <> k.database <> ":" <> k.shard_id <> ":" <> k.role <> ":" <> k.driver

pub record EngineEntry : Type 0 where
  pub key : EngineKey
  pub engine : ℕ
  pub target : TargetConfig
  pub last_used : ℕ

pub record AsyncEngineRegistry : Type 0 where
  pub entries : Dict String EngineEntry
  pub disposed : List ℕ  -- oldest first

unfoldable pub empty_registry : AsyncEngineRegistry
empty_registry = record { entries = []; disposed = [] }

-- What `_connect_args` gives to the driver.
pub record ConnectArgs : Type 0 where
  pub connect_timeout : Option ℕ
  pub disables_prepare : Bool

-- `_connect_args`; `second` is the number of ticks in a second.
unfoldable pub connect_args : ℕ → String → PoolConfig → ConnectArgs
connect_args second driver pool =
    if driver == "psycopg" || driver == "psycopg2"
    then record {
      connect_timeout = some (max pool.connect_timeout second);
      disables_prepare = pool.pgbouncer_compatible;
    }
    else if driver == "asyncpg"
    then record {
      connect_timeout = some pool.connect_timeout;
      disables_prepare = pool.pgbouncer_compatible;
    }
    else record { connect_timeout = none; disables_prepare = false }

abbrev pub by_name : String → List TargetConfig → Option TargetConfig
by_name n [] = none
by_name n (r ∷ rs) = if r.name == n then some r else by_name n rs

abbrev pub named_replica : Option String → List TargetConfig → Option TargetConfig
named_replica none rs = none
named_replica (some n) rs = by_name n rs

abbrev pub target_or : String → Option TargetConfig → Result DatabaseError TargetConfig
target_or message none = err (raise_routing message)
target_or message (some t) = ok t

abbrev pub target_in :
    ResolvedRoute → RouteRole → Option DatabaseConfig → Result DatabaseError TargetConfig
target_in r role none = err (raise_routing "unknown database")
target_in r replica (some db) =
    target_or "unknown replica" (named_replica r.replica_name db.replicas)
target_in r primary (some db) = ok db.primary

-- `_target_for`
unfoldable pub target_for : DbkitConfig → ResolvedRoute → Result DatabaseError TargetConfig
target_for c r = target_in r r.role (get c.databases r.database)

abbrev role_name : RouteRole → Option String → String
role_name primary replica_name = "primary"
role_name replica replica_name = "replica:" <> or_else replica_name "None"

-- `min(self._entries, key=last_used)`: the first key with the least time.
unfoldable pub oldest : String → ℕ → Dict String EngineEntry → String
oldest k t [] = k
oldest k t ((j, e) ∷ d) =
    let earlier = oldest j e.last_used d in
    let same = oldest k t d in if ltb e.last_used t then earlier else same

-- `_pop_lru_locked`: the victim, and the entries without it
unfoldable pub pop_lru : Dict String EngineEntry → Option EngineEntry × Dict String EngineEntry
unfolding oldest
pop_lru [] = (none, [])
pop_lru ((k, e) ∷ d) =
    let all = (k, e) ∷ d in
    let victim = oldest k e.last_used d in (get all victim, remove all victim)

abbrev disposal : Option EngineEntry → List ℕ
disposal none = []
disposal (some e) = e.engine ∷ []

module _ (scheme : String → String) (create : TargetConfig → PoolConfig → Option ℕ)
    (c : DbkitConfig) where
  -- `_key_for`
  unfoldable pub key_for : ResolvedRoute → TargetConfig → EngineKey
  key_for r t = record {
    environment = c.environment;
    database = r.database;
    shard_id = r.shard_id;
    role = role_name r.role r.replica_name;
    driver = driver scheme t;
  }

  -- Whether a new engine needs room: none if there is room, or the answer to give when there is not.
  unfoldable pub at_limit : Dict String EngineEntry → Bool
  at_limit d = reached c.max_engines
    where
      reached : Option ℕ → Bool
      reached none = false
      reached (some limit) = leb limit (length d)

  -- The rest of `get` once the engine is there: the entry is stored, and the victim disposed.
  abbrev built :
      ℕ
      → EngineKey
      → TargetConfig
      → Option EngineEntry
      → List ℕ
      → Dict String EngineEntry
      → Option ℕ
      → AsyncEngineRegistry × Result DatabaseError EngineEntry
  built now key t victim disposed d none = (
    record { entries = d; disposed = disposed },
    err (raise_configuration "failed to create engine"),
  )
  built now key t victim disposed d (some engine) =
      let entry : EngineEntry = record {
        key = key;
        engine = engine;
        target = t;
        last_used = now;
      } in
      (
        record { entries = set d (key_string key) entry; disposed = disposed ++ disposal victim },
        ok entry,
      )

  -- The creation under the lock: `d` has room, or lost the victim.
  abbrev build :
      ℕ
      → EngineKey
      → TargetConfig
      → Option EngineEntry
      → List ℕ
      → Dict String EngineEntry
      → AsyncEngineRegistry × Result DatabaseError EngineEntry
  build now key t victim disposed d =
      built now key t victim disposed d (create t (resolved_pool t c.defaults))

  abbrev use_entry :
      ℕ
      → String
      → EngineEntry
      → AsyncEngineRegistry
      → AsyncEngineRegistry × Result DatabaseError EngineEntry
  use_entry now k entry s =
      let entry' = record entry { last_used = now } in
      (record s { entries = set s.entries k entry' }, ok entry')

  abbrev make_room :
      ℕ
      → EngineKey
      → TargetConfig
      → AsyncEngineRegistry
      → Bool
      → AsyncEngineRegistry × Result DatabaseError EngineEntry
  make_room now key t s true =
      build now key t (pop_lru s.entries).0 s.disposed (pop_lru s.entries).1
  make_room now key t s false = (s, err (raise_configuration "engine limit reached"))

  abbrev looked_up :
      ℕ
      → EngineKey
      → TargetConfig
      → AsyncEngineRegistry
      → Option EngineEntry
      → Bool
      → AsyncEngineRegistry × Result DatabaseError EngineEntry
  looked_up now key t s (some entry) full = use_entry now (key_string key) entry s
  looked_up now key t s none true = make_room now key t s c.evict_lru_engines
  looked_up now key t s none false = build now key t none s.disposed s.entries

  -- The block under the lock, with its second look at the entries.
  unfoldable pub get_locked :
      ℕ
      → EngineKey
      → TargetConfig
      → AsyncEngineRegistry
      → AsyncEngineRegistry × Result DatabaseError EngineEntry
  unfolding at_limit pop_lru
  get_locked now key t s =
      looked_up now key t s (get s.entries (key_string key)) (at_limit s.entries)

  abbrev fast :
      ℕ
      → ResolvedRoute
      → TargetConfig
      → AsyncEngineRegistry
      → Option EngineEntry
      → AsyncEngineRegistry × Result DatabaseError EngineEntry
  fast now r t s (some entry) = use_entry now (key_string (key_for r t)) entry s
  fast now r t s none = get_locked now (key_for r t) t s

  abbrev get_for :
      ℕ
      → ResolvedRoute
      → Result DatabaseError TargetConfig
      → AsyncEngineRegistry
      → AsyncEngineRegistry × Result DatabaseError EngineEntry
  get_for now r (err e) s = (s, err e)
  get_for now r (ok t) s = fast now r t s (get s.entries (key_string (key_for r t)))

  -- `get`, when no other task runs between the fast path and the lock
  unfoldable pub get_engine :
      ℕ
      → ResolvedRoute
      → AsyncEngineRegistry
      → AsyncEngineRegistry × Result DatabaseError EngineEntry
  unfolding get_locked key_for target_for
  get_engine now r s = get_for now r (target_for c r) s
