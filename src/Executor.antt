-- ===== src/Executor.antt =====
-- The state of `ResilientExecutor` of _async/executor.py: a circuit breaker per engine key and a
-- concurrency limiter per database, and how `scope` and `attempt` use a connection.
pub mod Scope
pub mod Release
pub mod Raising
pub mod Resilience
pub mod Limiter
mod Examples
use dbkit_sql.Prelude.{
  ℕ, String, Option, none, some, Bool, true, false, List, [], ◌∷◌, ◌==◌, string_eq, if◌then◌else◌,
  ◌<>◌, ltb,
}
use dbkit_sql.Prelude.Dict.{Dict, get, set, remove}
use dbkit_sql.Circuit.{CircuitBreaker, new}
use dbkit_sql.Config.{CircuitBreakerConfig, ConcurrencyConfig, DbkitConfig}
use dbkit_sql.Engine.{EngineKey, key_string}
use dbkit_sql.Query.{Query, Operation, read}

-- The free slots of a limiter by tier; a tier that is not there is unbounded.
abbrev pub ConcurrencyLimiter : Type 0
ConcurrencyLimiter = Dict String ℕ

pub record ResilientExecutor : Type 0 where
  pub breakers : Dict String CircuitBreaker
  pub limiters : Dict String ConcurrencyLimiter

unfoldable pub new_executor : ResilientExecutor
new_executor = record { breakers = []; limiters = [] }

-- `if n and n > 0`
abbrev bound_tier : String → Option ℕ → ConcurrencyLimiter → ConcurrencyLimiter
bound_tier tier none l = l
bound_tier tier (some n) l = if ltb 0 n then (tier, n) ∷ l else l

-- `ConcurrencyLimiter(...)` on the limits of `limiter_for`
unfoldable pub new_limiter : ConcurrencyConfig → ConcurrencyLimiter
new_limiter c = bound_tier "database" c.database (
    bound_tier "reads" c.reads (
      bound_tier "writes" c.writes
        (bound_tier "bulk" c.bulk_writes (bound_tier "expensive" c.expensive_queries []))))

abbrev breaker_settings : CircuitBreakerConfig → CircuitBreaker
unfolding new
breaker_settings c = new (record {
  failure_threshold = c.failure_threshold;
  window = c.window;
  open_time = c.open_time;
  half_open_max_calls = c.half_open_max_calls;
})

abbrev found_breaker :
    Option CircuitBreaker
    → CircuitBreakerConfig
    → String
    → ResilientExecutor
    → ResilientExecutor × Option CircuitBreaker
found_breaker (some b) c k x = (x, some b)
found_breaker none c k x =
    (record x { breakers = set x.breakers k (breaker_settings c) }, some (breaker_settings c))

-- `breaker_for`
unfoldable pub breaker_for :
    DbkitConfig → EngineKey → ResilientExecutor → ResilientExecutor × Option CircuitBreaker
unfolding new breaker_settings
breaker_for c key x =
    let cb = c.defaults.circuit_breaker in
    if cb.enabled
    then found_breaker (get x.breakers (key_string key)) cb (key_string key) x
    else (x, none)

abbrev found_limiter :
    Option ConcurrencyLimiter
    → ConcurrencyConfig
    → String
    → ResilientExecutor
    → ResilientExecutor × ConcurrencyLimiter
unfolding new_limiter
found_limiter (some l) c k x = (x, l)
found_limiter none c k x = (record x { limiters = set x.limiters k (new_limiter c) }, new_limiter c)

-- `limiter_for` of a database with this concurrency config
unfoldable pub limiter_for :
    ConcurrencyConfig → String → ResilientExecutor → ResilientExecutor × ConcurrencyLimiter
unfolding found_limiter
limiter_for c database x = found_limiter (get x.limiters database) c database x

-- `s.startswith(prefix)`
unfoldable pub starts_with : String → String → Bool
starts_with String.[] s = true
starts_with (String.◌∷◌ c p) String.[] = false
starts_with (String.◌∷◌ c p) (String.◌∷◌ d s) =
    let rest = starts_with p s in
    if String.◌∷◌ c String.[] == String.◌∷◌ d String.[] then rest else false

-- `for key in [k for k in d if k.startswith(prefix)]: del d[key]`
unfoldable pub without_prefix : String → Dict String CircuitBreaker → Dict String CircuitBreaker
unfolding starts_with
without_prefix prefix [] = []
without_prefix prefix ((k, b) ∷ d) =
    let rest = without_prefix prefix d in if starts_with prefix k then rest else (k, b) ∷ rest

-- `forget_database`
unfoldable pub forget_database : String → String → ResilientExecutor → ResilientExecutor
unfolding without_prefix
forget_database environment database x = record {
  breakers = without_prefix (environment <> ":" <> database <> ":") x.breakers;
  limiters = remove x.limiters database;
}
