-- ===== src/Config/Sections.antt =====
-- `_pool`, `_retry`, `_circuit_breaker`, `_budget`, `_concurrency` and `_defaults` of _core/config.py, with the
-- defaults of the records. A tick is a millisecond. The bulk and observability sections, which decide nothing
-- here, are left out.
use dbkit_sql.Prelude.{pos, ℕ, Option, none, some, true, false, string_eq, ok, err, ◌>>=◌}
use dbkit_sql.Policies.{RetryConfig}
use dbkit_sql.Config.{
  PoolConfig, ConcurrencyConfig, CircuitBreakerConfig, ConnectionBudgetConfig, Defaults,
}
use dbkit_sql.Config.Tree.{
  Node, null, number, mapping, Entries, Loaded, attribute_error, not_followed, lookup, or_node,
  truthy, flag, Numbers, converted, read_with, read_natural, natural, read_limit, kept_text,
  kept_reset,
}

-- A section that may be missing: None has its defaults, and only a mapping has `get`.
abbrev pub section : {A : Type 0} → Option Node → A → (Entries → Loaded A) → Loaded A
section none default build = ok default
section (some null) default build = ok default
section (some (mapping d)) default build = build d
section (some _) default build = err attribute_error

abbrev pub default_pool : PoolConfig
default_pool = record {
  size = pos 10;
  max_overflow = pos 5;
  timeout = 5000;
  recycle = 1800;
  pre_ping = true;
  use_lifo = true;
  reset_on_return = some "rollback";
  connect_timeout = 10000;
  long_hold_warning = 2000;
  disable_pooling = false;
  pgbouncer_compatible = false;
}

abbrev pub default_retry : RetryConfig
default_retry = record {
  attempts = 2;
  initial_delay = 20;
  maximum_delay = 250;
  multiplier = record { num = 2; den = 1 };
  jitter = "full";
  maximum_total = 750;
  retry_reads = true;
  retry_writes = false;
}

abbrev pub default_breaker : CircuitBreakerConfig
default_breaker = record {
  enabled = false;
  failure_threshold = 10;
  window = 30000;
  open_time = 10000;
  half_open_max_calls = 2;
}

abbrev pub default_budget : ConnectionBudgetConfig
default_budget = record { maximum_per_process = none; enforce_at_startup = false }

abbrev pub unbounded : ConcurrencyConfig
unbounded = record {
  database = none;
  reads = none;
  writes = none;
  bulk_writes = none;
  expensive_queries = none;
}

module _ (python : Numbers) where
  -- A limit that is taken as it is: a number or None.
  abbrev pub kept_limit : Option Node → Loaded (Option ℕ)
  kept_limit none = ok none
  kept_limit (some null) = ok none
  kept_limit (some (number f)) = converted (python.int (number f)) >>= natural >>= λ k. ok (some k)
  kept_limit (some _) = err not_followed

  -- `_pool`
  unfoldable pub pool_fields : Entries → Loaded PoolConfig
  unfolding lookup truthy flag
  pool_fields d = read_with python.int (lookup d "size") (pos 10) >>= λ size.
      read_with python.int (lookup d "max_overflow") (pos 5) >>= λ max_overflow.
      read_with python.seconds (lookup d "timeout_seconds") 5000 >>= λ timeout.
      read_natural python.int (lookup d "recycle_seconds") 1800 >>= λ recycle.
      kept_reset (lookup d "reset_on_return") >>= λ reset_on_return.
      read_with python.seconds (lookup d "connect_timeout_seconds") 10000 >>= λ connect_timeout.
      read_with python.seconds (lookup d "long_hold_warning_seconds") 2000 >>= λ long_hold.
      ok (record {
        size = size;
        max_overflow = max_overflow;
        timeout = timeout;
        recycle = recycle;
        pre_ping = flag (lookup d "pre_ping") true;
        use_lifo = flag (lookup d "use_lifo") true;
        reset_on_return = reset_on_return;
        connect_timeout = connect_timeout;
        long_hold_warning = long_hold;
        disable_pooling = flag (lookup d "disable_pooling") false;
        pgbouncer_compatible = flag (lookup d "pgbouncer_compatible") false;
      })

  -- `_retry`
  unfoldable pub retry_fields : Entries → Loaded RetryConfig
  unfolding lookup truthy flag
  retry_fields d = read_natural python.int (lookup d "attempts") 2 >>= λ attempts.
      read_with python.milliseconds (lookup d "initial_delay_ms") 20 >>= λ initial_delay.
      read_with python.milliseconds (lookup d "maximum_delay_ms") 250 >>= λ maximum_delay.
      read_with python.float (lookup d "multiplier") (record { num = 2; den = 1 }) >>= λ multiplier.
      kept_text (lookup d "jitter") "full" >>= λ jitter.
      read_with python.milliseconds (lookup d "maximum_total_ms") 750 >>= λ maximum_total.
      ok (record {
        attempts = attempts;
        initial_delay = initial_delay;
        maximum_delay = maximum_delay;
        multiplier = multiplier;
        jitter = jitter;
        maximum_total = maximum_total;
        retry_reads = flag (lookup d "retry_reads") true;
        retry_writes = flag (lookup d "retry_writes") false;
      })

  -- `_circuit_breaker`
  unfoldable pub breaker_fields : Entries → Loaded CircuitBreakerConfig
  unfolding lookup truthy flag
  breaker_fields d =
      read_natural python.int (lookup d "failure_threshold") 10 >>= λ failure_threshold.
      read_with python.seconds (lookup d "window_seconds") 30000 >>= λ window.
      read_with python.seconds (lookup d "open_seconds") 10000 >>= λ open_time.
      read_natural python.int (lookup d "half_open_max_calls") 2 >>= λ half_open_max_calls.
      ok (record {
        enabled = flag (lookup d "enabled") false;
        failure_threshold = failure_threshold;
        window = window;
        open_time = open_time;
        half_open_max_calls = half_open_max_calls;
      })

  -- `_budget`
  unfoldable pub budget_fields : Entries → Loaded ConnectionBudgetConfig
  unfolding lookup truthy flag
  budget_fields d =
      read_limit python.int
        (or_node (lookup d "maximum_per_process") (lookup d "maximum_application_share"))
      >>= λ limit. ok (record {
        maximum_per_process = limit;
        enforce_at_startup = flag (lookup d "enforce_at_startup") false;
      })

  -- `_concurrency`
  unfoldable pub concurrency_fields : Entries → Loaded ConcurrencyConfig
  unfolding lookup
  concurrency_fields d = kept_limit (lookup d "database") >>= λ database.
      kept_limit (lookup d "reads") >>= λ reads. kept_limit (lookup d "writes") >>= λ writes.
      kept_limit (or_node (lookup d "bulk") (lookup d "bulk_writes")) >>= λ bulk_writes.
      kept_limit (lookup d "expensive_queries") >>= λ expensive_queries. ok (record {
        database = database;
        reads = reads;
        writes = writes;
        bulk_writes = bulk_writes;
        expensive_queries = expensive_queries;
      })

  -- `_defaults`
  unfoldable pub defaults_fields : Entries → Loaded Defaults
  unfolding lookup pool_fields retry_fields breaker_fields
  defaults_fields d =
      read_with python.seconds (lookup d "query_timeout_seconds") 2000 >>= λ query_timeout.
      section (lookup d "pool") default_pool pool_fields >>= λ pool.
      section (lookup d "retry") default_retry retry_fields >>= λ retry.
      section (lookup d "circuit_breaker") default_breaker breaker_fields >>= λ circuit_breaker.
      ok (record {
        query_timeout = query_timeout;
        pool = pool;
        retry = retry;
        circuit_breaker = circuit_breaker;
      })
