-- ===== src/Integrations/Examples.antt =====
-- The theorems on the message helpers applied to a few messages.
use dbkit_sql.Config.{DbkitConfig}
use dbkit_sql.Config.Samples.{plain_config}
use dbkit_sql.Prelude.{
  ◌≡◌, refl, ◌⊎◌, ◌≤◌, ◌+◌, ◌*◌, ◌++◌, ℕ, none, some, true, false, List, [], ◌∷◌, All, ok, err,
  arith,
}
use dbkit_sql.Errors.{query_timeout, circuit_open, make, no_context}
use dbkit_sql.Errors.Classify.{Raised, database}
use dbkit_sql.Circuit.{CircuitBreaker, open_, half_open, state}
use dbkit_sql.Integrations.{committed, lost}
use dbkit_sql.Integrations.BatchCollector.{
  BatchCollector, Callback, CollectorEvent, adds, empty_collector, new_collector, collector_run,
  timer_flush, interrupted, flush_cancelled, add, collector_step,
}
use dbkit_sql.Integrations.BatchCollector.Order.{handed, accepted, run-in_order}
use dbkit_sql.Integrations.BatchCollector.Delay.{run-timer_empties, run-timer_loses}
use dbkit_sql.Integrations.Inbox.{Message, Delivery, deliver_all, empty_store}
use dbkit_sql.Integrations.Inbox.Once.{times, acks, deliver_all-once}
use dbkit_sql.Integrations.Outbox.{
  Circumstances, OutboxEvent, enqueues, drains, outbox_run, empty_outbox,
}
use dbkit_sql.Integrations.Outbox.Relay.{IsPublished, outbox_run-IsPublished}
use dbkit_sql.Integrations.Problem.{
  database_error_handler, retry_after_seconds, retry_after-half_open,
}

abbrev quick : Callback
quick = record { suspends = false; raises = false }

abbrev waiting : Callback
waiting = record { suspends = true; raises = false }

abbrev collector : BatchCollector ℕ
collector = empty_collector 2

-- The third item is left to the timer.
abbrev three_adds : List (CollectorEvent ℕ)
three_adds = adds 1 quick ∷ adds 2 waiting ∷ adds 3 quick ∷ []

accepts_two : new_collector 2 ≡ ok collector
unfolding new_collector
accepts_two = refl

run-in_order_example :
    handed (collector_run three_adds collector).batches
      ++ (collector_run three_adds collector).buffer
    ≡ accepted three_adds
run-in_order_example = run-in_order 2 three_adds collector accepts_two

run-timer_empties_example :
    let c = collector_run three_adds collector in
    ((c.buffer ≡ []) ⊎ (c.sleeping ≡ true))
    × ((timer_flush waiting c).0.buffer ≡ [])
    × (handed (timer_flush waiting c).0.batches ≡ handed c.batches ++ c.buffer)
run-timer_empties_example = run-timer_empties 2 three_adds collector waiting accepts_two

holds_one : (collector_run three_adds collector).buffer ≡ 3 ∷ []
unfolding collector_run add collector_step
holds_one = refl

run-timer_loses_example :
    let c = collector_run three_adds collector in
    timer_flush waiting c ≡ (
      record c {
        buffer = [];
        timer = false;
        sleeping = false;
        batches = c.batches ++ (c.buffer, interrupted) ∷ [];
      },
      err flush_cancelled,
    )
run-timer_loses_example =
    run-timer_loses 2 three_adds collector waiting accepts_two (λ e. cc (e, holds_one)) refl

abbrev message : Message
message = record { consumer = "billing"; message_id = "m-1" }

abbrev late : Raised
late = database (make query_timeout "late" none no_context)

abbrev delivery : Delivery
delivery = record {
  message = message;
  opens = none;
  claims = none;
  works = none;
  ends = committed;
  has_retry = true;
  has_dead_letter = true;
  calls = none;
}

-- A commit of unknown outcome that was applied, a failing claim, and two deliveries without trouble.
abbrev deliveries : List Delivery
deliveries =
    record delivery { ends = lost true }
    ∷ record delivery { claims = some late }
    ∷ delivery
    ∷ delivery
    ∷ []

deliver_all-once_example :
    let r = deliver_all deliveries empty_store [] in
    (times message r.0.applied ≤ 1) × ((acks message r.1 ≡ 0) ⊎ (times message r.0.applied ≡ 1))
deliver_all-once_example = deliver_all-once message deliveries

abbrev smooth : Circumstances
smooth = record {
  locked = λ n. false;
  opens = none;
  selects = none;
  publishes = λ n. none;
  updates = none;
  ends = committed;
}

abbrev drain_twice : List OutboxEvent
drain_twice =
    enqueues "orders" "1"
    ∷ drains 10 (record smooth { updates = some late })
    ∷ enqueues "orders" "2"
    ∷ drains 10 smooth
    ∷ []

outbox_run-IsPublished_example :
    All
      (IsPublished (outbox_run drain_twice empty_outbox).broker)
      (outbox_run drain_twice empty_outbox).outbox.rows
outbox_run-IsPublished_example = outbox_run-IsPublished drain_twice

-- Ten ticks are a second; open for 25 of them.
abbrev breaker : CircuitBreaker
breaker = record {
  settings = record { failure_threshold = 2; window = 10; open_time = 25; half_open_max_calls = 1 };
  current = open_;
  failures = [];
  opened_at = 7;
  half_open_calls = 0;
}

abbrev hasty_config : DbkitConfig
hasty_config = record plain_config {
  defaults = record plain_config.defaults {
    circuit_breaker = record plain_config.defaults.circuit_breaker { open_time = 25 };
  };
}

retry_after-half_open_example :
    let wait = retry_after_seconds 10 none (some hasty_config) in
    let answer = database_error_handler wait (make circuit_open "open" none no_context) in
    (answer.status ≡ 503)
    × (answer.retry_after ≡ some wait)
    × ((state (9 + 10 * wait) breaker).current ≡ half_open)
retry_after-half_open_example =
    retry_after-half_open 10 9 hasty_config breaker "open" no_context (omega arith) refl refl
      (omega arith)
