-- ===== src/Config.antt =====
-- _core/config.py: the configuration records, their validation and the connection budget. The sizes
-- of a pool are integers, since nothing validates the pool of a target; the other counts are natural numbers
-- and durations clock ticks, so a negative one cannot be written.
-- `scheme` stands for `urlsplit(url).scheme` of urllib.
pub mod Budget
pub mod Samples
pub mod Tree
pub mod Warnings
pub mod Expansion
pub mod Sections
pub mod Loading
use Prim.Native.String.{◌++◌}
use dbkit_sql.Prelude.{
  ℤ, pos, ◌+ℤ◌, ltb_ℤ, times_ℕ, is_negative, ℕ, zero, suc, ◌+◌, ◌*◌, max, String, Option, none,
  some, Bool, true, false, List, [], ◌∷◌, ltb, leb, nat_beq, ◌==◌, string_eq, or_else,
  if◌then◌else◌, ◌||◌, ◌<>◌, not, Result, ok, err, raise_if, ◌>>◌, ◌>>=◌,
}
use dbkit_sql.Prelude.Dict.{Dict}
use dbkit_sql.Errors.{DatabaseError, configuration_error, make, no_context}
use dbkit_sql.Policies.{RetryConfig, validate as validate_retry}

pub record PoolConfig : Type 0 where
  pub size : ℤ
  pub max_overflow : ℤ
  pub timeout : ℕ
  pub recycle : ℕ
  pub pre_ping : Bool
  pub use_lifo : Bool
  pub reset_on_return : Option String
  pub connect_timeout : ℕ
  pub long_hold_warning : ℕ
  pub disable_pooling : Bool
  pub pgbouncer_compatible : Bool

pub record ConcurrencyConfig : Type 0 where
  pub database : Option ℕ
  pub reads : Option ℕ
  pub writes : Option ℕ
  pub bulk_writes : Option ℕ
  pub expensive_queries : Option ℕ

pub record CircuitBreakerConfig : Type 0 where
  pub enabled : Bool
  pub failure_threshold : ℕ
  pub window : ℕ
  pub open_time : ℕ
  pub half_open_max_calls : ℕ

pub record ConnectionBudgetConfig : Type 0 where
  pub maximum_per_process : Option ℕ
  pub enforce_at_startup : Bool

pub record Defaults : Type 0 where
  pub query_timeout : ℕ
  pub pool : PoolConfig
  pub retry : RetryConfig
  pub circuit_breaker : CircuitBreakerConfig

pub record TargetConfig : Type 0 where
  pub url : String
  pub name : String
  pub required : Bool
  pub weight : ℕ
  pub pool : Option PoolConfig

pub record DatabaseConfig : Type 0 where
  pub primary : TargetConfig
  pub replicas : List TargetConfig
  pub concurrency : ConcurrencyConfig
  pub connection_budget : ConnectionBudgetConfig

pub record DbkitConfig : Type 0 where
  pub databases : Dict String DatabaseConfig
  pub environment : String
  pub defaults : Defaults
  pub connection_budget : ConnectionBudgetConfig
  pub max_engines : Option ℕ
  pub max_databases : Option ℕ
  pub evict_lru_engines : Bool

abbrev pub config_error : String → DatabaseError
config_error message = make configuration_error message none no_context

abbrev known_reset : Option String → Bool
known_reset none = true
known_reset (some s) = s == "rollback" || s == "commit" || s == "none"

-- PoolConfig.max_connections
unfoldable pub pool_max_connections : PoolConfig → ℤ
pool_max_connections p = if p.disable_pooling then pos 0 else p.size +ℤ p.max_overflow

-- PoolConfig.validate
unfoldable pub validate_pool : PoolConfig → Result DatabaseError (Unit {0})
validate_pool p =
    raise_if (is_negative p.size) (config_error "pool.size must be >= 0")
    >> raise_if (is_negative p.max_overflow) (config_error "pool.max_overflow must be >= 0")
    >> raise_if (nat_beq p.timeout 0) (config_error "pool.timeout_seconds must be > 0")
    >> raise_if (not (known_reset p.reset_on_return))
        (config_error "pool.reset_on_return must be one of rollback|commit|none")

-- CircuitBreakerConfig.validate
unfoldable pub validate_breaker : CircuitBreakerConfig → Result DatabaseError (Unit {0})
validate_breaker c =
    raise_if (ltb c.failure_threshold 1)
      (config_error "circuit_breaker.failure_threshold must be >= 1")

-- Defaults.validate
unfoldable pub validate_defaults : Defaults → Result DatabaseError (Unit {0})
unfolding validate_pool validate_breaker
validate_defaults d =
    validate_pool d.pool >> validate_retry d.retry >> validate_breaker d.circuit_breaker

-- TargetConfig.resolved_pool
unfoldable pub resolved_pool : TargetConfig → Defaults → PoolConfig
resolved_pool t d = or_else t.pool d.pool

abbrev is_plus : String → Bool
is_plus c = c == "+"

-- `scheme.split("+", 1)`: the part before the first plus, and the part after it if there is one.
abbrev split_plus : String → String × Option String
split_plus String.[] = ("", none)
split_plus (String.◌∷◌ c s) =
    let rest = split_plus s in
    if is_plus (String.◌∷◌ c String.[]) then ("", some s) else (String.◌∷◌ c rest.0, rest.1)

module _ (scheme : String → String) where
  -- TargetConfig.driver
  unfoldable pub driver : TargetConfig → String
  driver t = or_else (split_plus (scheme t.url)).1 (scheme t.url)

  -- TargetConfig.dialect
  unfoldable pub dialect : TargetConfig → String
  dialect t = (split_plus (scheme t.url)).0

  -- TargetConfig.validate
  unfoldable pub validate_target : TargetConfig → Result DatabaseError (Unit {0})
  validate_target t =
      raise_if (t.url == "") (config_error "target has an empty url")
      >> raise_if (scheme t.url == "") (config_error "target url is missing a dialect scheme")

  abbrev validate_targets : List TargetConfig → Result DatabaseError (Unit {0})
  unfolding validate_target
  validate_targets [] = ok tt
  validate_targets (t ∷ ts) = validate_target t >> validate_targets ts

  -- DatabaseConfig.validate
  unfoldable pub validate_database : DatabaseConfig → Result DatabaseError (Unit {0})
  unfolding validate_target
  validate_database db = validate_target db.primary >> validate_targets db.replicas

-- DatabaseConfig.all_targets
unfoldable pub all_targets : DatabaseConfig → List TargetConfig
all_targets db = db.primary ∷ db.replicas

abbrev sum_of_targets : Defaults → List TargetConfig → ℤ
unfolding pool_max_connections resolved_pool
sum_of_targets d [] = pos 0
sum_of_targets d (t ∷ ts) = pool_max_connections (resolved_pool t d) +ℤ sum_of_targets d ts

-- DatabaseConfig.max_connections
unfoldable pub database_max_connections : DatabaseConfig → Defaults → ℤ
unfolding all_targets sum_of_targets
database_max_connections db d = sum_of_targets d (all_targets db)

-- Both `enforce_connection_budget` methods, on the number of connections that each counts.
unfoldable pub enforce : ConnectionBudgetConfig → ℤ → Result DatabaseError (Unit {0})
enforce b actual = limited b.maximum_per_process
  where
    limited : Option ℕ → Result DatabaseError (Unit {0})
    limited none = ok tt
    limited (some limit) =
        if b.enforce_at_startup
        then raise_if (ltb_ℤ (pos limit) actual) (config_error "connection budget exceeded")
        else ok tt

unfoldable pub enforce_database_budget : DatabaseConfig → Defaults → Result DatabaseError (Unit {0})
unfolding enforce
enforce_database_budget db d = enforce db.connection_budget (database_max_connections db d)

abbrev pub sum_of_databases : Defaults → Dict String DatabaseConfig → ℤ
sum_of_databases d [] = pos 0
sum_of_databases d ((name, db) ∷ dbs) = database_max_connections db d +ℤ sum_of_databases d dbs

-- DbkitConfig.max_connections_per_process
unfoldable pub max_connections_per_process : DbkitConfig → ℤ
max_connections_per_process c = sum_of_databases c.defaults c.databases

-- DbkitConfig.connection_budget_report: `per_process` and `cluster_total`
unfoldable pub connection_budget_report : DbkitConfig → ℕ → ℤ × ℤ
connection_budget_report c replicas =
    let per_process = max_connections_per_process c in
    (per_process, times_ℕ per_process (max replicas 1))

-- DbkitConfig.enforce_connection_budget
unfoldable pub enforce_process_budget : DbkitConfig → Result DatabaseError (Unit {0})
unfolding enforce
enforce_process_budget c = enforce c.connection_budget (max_connections_per_process c)

module _ (scheme : String → String) where
  abbrev validate_databases :
      Defaults → Dict String DatabaseConfig → Result DatabaseError (Unit {0})
  validate_databases d [] = ok tt
  validate_databases d ((name, db) ∷ dbs) =
      raise_if (name == "") (config_error "database name must be non-empty")
      >> validate_database scheme db
      >> enforce_database_budget db d
      >> validate_databases d dbs

  -- DbkitConfig.validate
  unfoldable pub validate : DbkitConfig → Result DatabaseError (Unit {0})
  unfolding validate_defaults
  validate c =
      validate_defaults c.defaults
      >> validate_databases c.defaults c.databases
      >> enforce_process_budget c
