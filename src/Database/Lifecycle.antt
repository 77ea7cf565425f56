-- ===== src/Database/Lifecycle.antt =====
-- Start, health and readiness of the facade, `ping` of _async/health.py, and the scopes of
-- _async/database.py that lend a state to a block. The outcome of the `SELECT 1` to a database comes from
-- outside, by its name, and all clock readings of one call are taken as one.
pub mod Ready
pub mod Scopes
use dbkit_sql.Prelude.{
  ℕ, ◌≡◌, ◌↔◌, refl, sym, ap, ◌∙◌, subst, String, Option, none, some, Bool, true, false, List, [],
  ◌∷◌, ◌++◌, map, not, ◌&&◌, Result, ok, err, if◌then◌else◌, if-elim, string_eq, ◌<>◌, arith, All,
  is_some,
}
use dbkit_sql.Prelude.Dict.{Dict}
use dbkit_sql.Errors.{DatabaseError, database_error, make, no_context}
use dbkit_sql.Errors.Classify.{Raised, database, classify}
use dbkit_sql.Connection.{is_cancellation}
use dbkit_sql.Config.{DatabaseConfig, DbkitConfig, PoolConfig, TargetConfig, validate}
use dbkit_sql.Routing.{DatabaseTarget, ResolvedRoute, primary, replica}
use dbkit_sql.Engine.{AsyncEngineRegistry, EngineEntry, get_engine}
use dbkit_sql.Database.{AsyncDatabase, primary_route, register_database, unregister_database}
use dbkit_sql.Database.Target.{resolve_target}

pub record TargetHealth : Type 0 where
  pub key : String
  pub healthy : Bool

pub record HealthReport : Type 0 where
  pub live : Bool
  pub ready : Bool
  pub targets : List TargetHealth

-- `db.primary.required`, in the order of the mapping
unfoldable pub required_names : Dict String DatabaseConfig → List String
required_names [] = []
required_names ((n, db) ∷ d) =
    let rest = required_names d in if db.primary.required then n ∷ rest else rest

abbrev pub then_all :
    AsyncDatabase × Result Raised (Unit {0})
    → (AsyncDatabase → AsyncDatabase × Result Raised (Unit {0}))
    → AsyncDatabase × Result Raised (Unit {0})
then_all (s, ok u) rest = rest s
then_all (s, err e) rest = (s, err e)

abbrev pub reported : String → Result Raised (Unit {0}) → TargetHealth
reported n (ok u) = record { key = n <> ".primary"; healthy = true }
reported n (err e) = record { key = n <> ".primary"; healthy = false }

abbrev pub uncaught : Result Raised (Unit {0}) → Option Raised
unfolding is_cancellation
uncaught (ok u) = none
uncaught (err e) = if is_cancellation e then some e else none

abbrev pub succeeded : Result Raised (Unit {0}) → Bool
succeeded (ok u) = true
succeeded (err e) = false

abbrev pub next_target :
    String
    → Bool
    → List TargetHealth
    → AsyncDatabase × Result Raised (Unit {0})
    → (Bool → List TargetHealth → AsyncDatabase → AsyncDatabase × Result Raised HealthReport)
    → AsyncDatabase × Result Raised HealthReport
next_target n ready ts (s, r) rest = elim (uncaught r) [
  | some e ↦ (s, err e)
  | none ↦ rest (ready && succeeded r) (ts ++ reported n r ∷ []) s
]

-- `require_ready` on the report
abbrev pub demand :
    AsyncDatabase × Result Raised HealthReport → AsyncDatabase × Result Raised (Unit {0})
unfolding make
demand (s, err e) = (s, err e)
demand (s, ok report) =
    if not report.ready
    then (s, err (database (make database_error "required databases not ready" none no_context)))
    else (s, ok tt)

module _ (sanitize : String → String) (scheme : String → String)
    (create : TargetConfig → PoolConfig → Option ℕ) (now : ℕ) (pings : String → Option Raised) where
  -- `ping`: `except Exception`
  unfoldable pub ping : String → Result Raised (Unit {0})
  unfolding is_cancellation classify
  ping n = elim (pings n) [
    | none ↦ ok tt
    | some e ↦ err (if is_cancellation e then e else database (classify sanitize e no_context))
  ]

  abbrev pub pinged :
      Bool
      → String
      → AsyncDatabase
      → AsyncEngineRegistry × Result DatabaseError EngineEntry
      → AsyncDatabase × Result Raised (Unit {0})
  unfolding ping
  pinged warm n s (r, err e) = (record s { registry = r }, err (database e))
  pinged true n s (r, ok entry) = (record s { registry = r }, ping n)
  pinged false n s (r, ok entry) = (record s { registry = r }, ok tt)

  -- The engine of a primary, and a ping where one is asked for.
  unfoldable pub reach : Bool → String → AsyncDatabase → AsyncDatabase × Result Raised (Unit {0})
  unfolding pinged get_engine
  reach warm n s =
      pinged warm n s (get_engine scheme create s.config now (primary_route n) s.registry)

  unfoldable pub reach_all :
      Bool → List String → AsyncDatabase → AsyncDatabase × Result Raised (Unit {0})
  unfolding reach
  reach_all warm [] s = (record s { started = true }, ok tt)
  reach_all warm (n ∷ ns) s = then_all (reach warm n s) (λ s'. reach_all warm ns s')

  abbrev validated :
      Result DatabaseError (Unit {0})
      → Bool
      → AsyncDatabase
      → AsyncDatabase × Result Raised (Unit {0})
  unfolding reach_all required_names
  validated (err e) warm s = (s, err (database e))
  validated (ok u) warm s = reach_all warm (required_names s.config.databases) s

  -- `start`
  unfoldable pub start : Bool → AsyncDatabase → AsyncDatabase × Result Raised (Unit {0})
  unfolding validated validate
  start warm s = if s.started then (s, ok tt) else validated (validate scheme s.config) warm s

  -- The loop of `health`, with `ready` and `targets` so far.
  unfoldable pub health_over :
      List String
      → Bool
      → List TargetHealth
      → AsyncDatabase
      → AsyncDatabase × Result Raised HealthReport
  unfolding reach is_cancellation
  health_over [] ready ts s = (s, ok (record { live = true; ready = ready; targets = ts }))
  health_over (n ∷ ns) ready ts s =
      next_target n ready ts (reach true n s) (λ r us s'. health_over ns r us s')

  unfoldable pub health : AsyncDatabase → AsyncDatabase × Result Raised HealthReport
  unfolding health_over required_names
  health s = health_over (required_names s.config.databases) true [] s

  unfoldable pub require_ready : AsyncDatabase → AsyncDatabase × Result Raised (Unit {0})
  unfolding health make
  require_ready s = demand (health s)

  -- `database_scope` around a block, which may change the facade and raise: the name is unregistered also then.
  abbrev pub in_scope :
      String
      → (AsyncDatabase → AsyncDatabase × Result Raised (Unit {0}))
      → AsyncDatabase × Result DatabaseError Bool
      → AsyncDatabase × Result Raised (Unit {0})
  unfolding unregister_database
  in_scope n block (s, err e) = (s, err (database e))
  in_scope n block (s, ok replaced) = let (s', r) = block s in ((unregister_database n s').0, r)

  unfoldable pub database_scope :
      String
      → DatabaseConfig
      → Option Bool
      → (AsyncDatabase → AsyncDatabase × Result Raised (Unit {0}))
      → AsyncDatabase
      → AsyncDatabase × Result Raised (Unit {0})
  unfolding in_scope register_database
  database_scope n db connect block s =
      in_scope n block (register_database scheme create now n db connect s)

-- The context variable of a task, and `consistency_scope` around a block: the mode is set for the block, and
-- whatever the block leaves is reset to what it was before.
abbrev pub Mode : Type 0
Mode = Option String

unfoldable pub consistency_scope : {A : Type 0} → String → (Mode → Mode × A) → Mode → Mode × A
consistency_scope mode block before = let (left, a) = block (some mode) in (before, a)

-- `_resolve` of a task with this mode
unfoldable pub resolve_with :
    {K : Type 0}
    → (String → K → Result DatabaseError String)
    → Mode
    → DatabaseTarget K
    → AsyncDatabase
    → AsyncDatabase × Result DatabaseError ResolvedRoute
unfolding resolve_target
resolve_with shards mode t s = resolve_target shards (is_some mode) t s
