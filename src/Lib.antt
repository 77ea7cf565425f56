-- ===== src/Lib.antt =====
-- A model of dbkit, the SQL-first database client of this repository, and the theorems that make its
-- decisions correct. Paths are from the repository's root.
--
-- The program. `AsyncDatabase` (src/dbkit/_async/database.py) is the facade. A call names a target; the
-- facade resolves it to a route, the engine registry (src/dbkit/_async/engine.py) gives the engine of the
-- route, and the executor (src/dbkit/_async/executor.py) runs one attempt on a connection inside the retry
-- loop (src/dbkit/_async/resilience.py), which asks the circuit breaker (src/dbkit/_core/circuit.py) before
-- each attempt and the retry policy (src/dbkit/_core/policies.py) after each failure. Every failure is first
-- made a DatabaseError by the classifier (src/dbkit/_core/errors). Transactions
-- (src/dbkit/_async/transaction.py) own one connection for their life. The synchronous client in
-- src/dbkit/_sync is generated from the asynchronous one and is not modelled apart.
--
-- The files.
--   Prelude       Boolean tests, lists and Python's dict over the native numbers, stable sorting.
--   Errors        the class table and attributes (errors/base.py); Errors/Sqlstate the code tables
--                 (errors/sqlstate.py); Errors/Classify `classify` and `is_connection_error`
--                 (errors/classifier.py).
--   Circuit       CircuitBreaker: `state`, `allow`, `on_success`, `on_failure`, and runs of such calls.
--   Query         Query, `coerce_statement` and QueryRegistry (query.py).
--   Policies      `effective_timeout`, `should_retry`, `backoff_delay_ms` (policies.py) and RetryConfig.
--   Retry         `run_with_retries`.
--   Config        the configuration records, their validation and the connection budgets (config.py);
--                 Config/Tree, Config/Sections and Config/Loading the builders up to `from_dict`,
--                 Config/Warnings the warnings on budgets and TLS, Config/Expansion `expand_env`
--                 and `_expand_tree`.
--   Routing       DatabaseTarget, and the resolvers and selectors of routing.py, one module each.
--   Engine        EngineKey (keys.py) and the lookup and creation of AsyncEngineRegistry;
--                 Engine/Disposal its disposals, Engine/Events what happens to it over time.
--   Connection    the calls awaited on a connection, as a log; Transaction `_AsyncTransactionManager`;
--                 Executor the breakers and limiters of ResilientExecutor,
--                 Executor/Scope its `scope`, Executor/Resilience `execute_with_resilience`;
--                 Executor/Limiter the `acquire` of ConcurrencyLimiter (_async/resilience.py) as a step
--                 relation on all operations at once.
--   Database      AsyncDatabase: `register_database`, `ensure_database`, `unregister_database`, the LRU of
--                 dynamic databases; Database/Target `_resolve`, Database/Events lists of such calls,
--                 Database/Replicas the selector and the configuration together, Database/Lifecycle
--                 `start`, `health` (with _async/health.py), `require_ready` and the two scopes,
--                 Database/Calls the fetch methods, `execute` and `execute_many`.
--   Pool          PoolInstrumentation (_pool.py).
--   Redaction     `is_sensitive_key` and `redact_params` (_core/errors/redaction.py).
--   Fetch         the fetch methods and `execute` of AsyncConnectionScope (_async/connection.py), with the
--                 settings of a query; Mapping what becomes of the rows (_core/result.py).
--   Streaming     AsyncResultStream (_async/streaming.py).
--   Bulk          batch sizing and slicing (bulk.py); Bulk/Plan the parameters of a batch (_BulkPlan and
--                 postgres/unnest.py), Bulk/Atomic, Bulk/Modes and Bulk/Write `_bulk_write` and
--                 `_bulk_best_effort`.
--   Integrations  src/dbkit/integrations, by its files: BatchCollector (batch.py), Inbox (inbox.py), Outbox
--                 (outbox.py), Problem (fastapi.py).
-- A module X/Examples applies the theorems on X to concrete values.
--
-- How it is modelled. State is passed explicitly; an exception is the `err` of a result. What an await
-- meets from outside (the outcome of a driver call, a clock reading, a random value, a cancellation) is an
-- argument, so a theorem holds for every such behaviour. One operation on shared state is one step, and
-- interleavings are lists of steps; where the code lets others run in the middle of one, its file says so.
-- Times and durations are clock ticks and natural numbers, except for timeouts, which can be negative; a
-- multiplier or a random value is a fraction. SQLAlchemy, SHA-256, urllib, `str.lower`, Python's equality
-- of keys and message sanitizing are parameters. Where a message is only read by people it is shortened to
-- a fixed text without names. The retry loop runs on fuel of one more than the attempts allowed, which is
-- proved enough; slicing runs on fuel of the number of rows, since every slice takes at least one; the
-- digits of a shard number on fuel of twenty, enough for the eight bytes of the digest.
--
-- PostgreSQL is present where a module needs it: Integrations takes a transaction as applied wholly or not
-- at all, and a unique key as held by one transaction at a time; Bulk/Plan/Server says what `unnest` makes
-- of arrays.
--
-- Cancellations are followed where connections are taken, used and given back; not while an attempt waits
-- for a slot of the limiter or sleeps before a retry, nor in a disposal. The sizes of a pool can be negative;
-- other negative counts are not followed.
--
-- Not modelled: metrics, logs and spans, which decide nothing; the reading of YAML before
-- `from_dict`; SQL text; COPY, which is calls of the driver; the lint of idempotent queries and
-- the redaction of messages, which are regular expressions; the command line and the testing helpers.
pub mod Bulk
pub mod Circuit
pub mod Config
pub mod Connection
pub mod Database
pub mod Engine
pub mod Errors
pub mod Executor
pub mod Fetch
pub mod Integrations
pub mod Mapping
pub mod Policies
pub mod Pool
pub mod Prelude
pub mod Query
pub mod Redaction
pub mod Retry
pub mod Routing
pub mod Streaming
pub mod Transaction
