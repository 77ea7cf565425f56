-- ===== src/Config/Samples.antt =====
-- A small configuration that the tests of several modules use.
use dbkit_sql.Prelude.{pos, String, none, some, true, false, [], ◌∷◌}
use dbkit_sql.Policies.{RetryConfig}
use dbkit_sql.Config.{
  ConcurrencyConfig, ConnectionBudgetConfig, DatabaseConfig, DbkitConfig, Defaults, PoolConfig,
  TargetConfig,
}

abbrev pub scheme : String → String
scheme url = "postgresql+psycopg"

abbrev pub plain_pool : PoolConfig
plain_pool = record {
  size = pos 10;
  max_overflow = pos 5;
  timeout = 5000;
  recycle = 1800;
  pre_ping = true;
  use_lifo = true;
  reset_on_return = some "rollback";
  connect_timeout = 10000;
  long_hold_warning = 2000;
  disable_pooling = false;
  pgbouncer_compatible = false;
}

abbrev pub plain_retry : RetryConfig
plain_retry = record {
  attempts = 2;
  initial_delay = 20;
  maximum_delay = 250;
  multiplier = record { num = 2; den = 1 };
  jitter = "full";
  maximum_total = 750;
  retry_reads = true;
  retry_writes = false;
}

abbrev pub plain_defaults : Defaults
plain_defaults = record {
  query_timeout = 2000;
  pool = plain_pool;
  retry = plain_retry;
  circuit_breaker = record {
    enabled = false;
    failure_threshold = 10;
    window = 30000;
    open_time = 10000;
    half_open_max_calls = 2;
  };
}

abbrev pub main_target : TargetConfig
main_target = record {
  url = "postgresql+psycopg://main";
  name = "primary";
  required = true;
  weight = 1;
  pool = none;
}

abbrev pub no_limits : ConcurrencyConfig
no_limits = record {
  database = none;
  reads = none;
  writes = none;
  bulk_writes = none;
  expensive_queries = none;
}

abbrev pub budget : ConnectionBudgetConfig
budget = record { maximum_per_process = some 40; enforce_at_startup = true }

abbrev pub main_database : DatabaseConfig
main_database = record {
  primary = main_target;
  replicas = [];
  concurrency = no_limits;
  connection_budget = budget;
}

-- One database; at most one engine and one dynamic database, the least recently used ones evicted.
abbrev pub plain_config : DbkitConfig
plain_config = record {
  databases = ("main", main_database) ∷ [];
  environment = "test";
  defaults = plain_defaults;
  connection_budget = budget;
  max_engines = some 1;
  max_databases = some 1;
  evict_lru_engines = true;
}
