-- ===== src/Retry.antt =====
-- `run_with_retries` of _async/resilience.py. What the loop meets from outside is `Attempt`: what one
-- call of the operation does, the clock readings around it and the random value. The loop runs on
-- fuel of one more than the attempts allowed; Retry/Terminates shows that this is enough. A cancellation in
-- the sleep between two attempts is not modelled.
mod Rules
pub mod Terminates
pub mod Budget
pub mod Trace
pub mod Unknown
pub mod Breaker
mod Examples
use dbkit_sql.Prelude.{
  ℕ, zero, suc, ◌+◌, String, Option, none, some, Bool, true, false, List, [], ◌∷◌, leb, Fraction,
  if◌then◌else◌,
}
use dbkit_sql.Errors.{DatabaseError, Context, circuit_open, make}
use dbkit_sql.Circuit.{CircuitBreaker, state, allow, on_success, on_failure, counts_as_failure}
use dbkit_sql.Query.{Query}
use dbkit_sql.Policies.{RetryConfig, should_retry, backoff_delay}

-- How a call ends: with a value, with a DatabaseError, or with an exception that the loop does not
-- handle, such as a cancellation.
pub data Outcome (V : Type 0) : Type 0 where
  returned : V → Outcome V
  raised : DatabaseError → Outcome V
  escaped : Outcome V

pub record Attempt (V : Type 0) : Type 0 where
  pub started_at : ℕ
  pub outcome : Outcome V
  pub reported_at : ℕ
  pub emitted_at : ℕ
  pub rand : Fraction
  pub deadline_at : ℕ
  pub elapsed_at : ℕ

-- The arguments of one run.
pub record Request : Type 0 where
  pub query : Option Query
  pub retry : RetryConfig
  pub override : Option Bool
  pub deadline : Option ℕ
  pub context : Context
  pub began : ℕ

abbrev circuit_message : String
circuit_message = "circuit is open for this target"

unfoldable pub circuit_error : Request → DatabaseError
circuit_error r = make circuit_open circuit_message none r.context

-- `_emit_circuit_state` calls `state`, which may move an OPEN breaker on.
abbrev emit : ℕ → CircuitBreaker → CircuitBreaker
emit now b = state now b

-- The gate before a call: the breaker afterwards, and whether the call may run.
unfoldable pub gate : ℕ → Option CircuitBreaker → Option CircuitBreaker × Bool
gate now none = (none, true)
gate now (some b) = let (b', allowed) = allow now b in (some (emit now b'), allowed)

-- The report of an error to the breaker: only one that counts is a failure.
unfoldable pub report_error : ℕ → ℕ → DatabaseError → Option CircuitBreaker → Option CircuitBreaker
report_error at emitted e none = none
report_error at emitted e (some b) =
    some (emit emitted (if counts_as_failure e then on_failure at b else b))

unfoldable pub report_success : ℕ → ℕ → Option CircuitBreaker → Option CircuitBreaker
report_success at emitted none = none
report_success at emitted (some b) = some (emit emitted (on_success at b))

-- `deadline is not None and time.monotonic() + delay >= deadline`
abbrev past_deadline : Option ℕ → ℕ → Bool
past_deadline none t = false
past_deadline (some deadline) t = leb deadline t

-- What the handler of a DatabaseError decides: a delay to sleep, or none to raise it again.
unfoldable pub next_delay : {V : Type 0} → Request → ℕ → Attempt V → DatabaseError → Option ℕ
next_delay r n a e =
    let delay = backoff_delay n r.retry a.rand in
    if should_retry e r.query r.retry n r.override
    then (if past_deadline r.deadline (a.deadline_at + delay)
        then none
        else if leb (r.began + r.retry.maximum_total) (a.elapsed_at + delay)
        then none
        else some delay)
    else none

-- The sleeps of a run, each with the number of the attempt before it.
pub record Sleep : Type 0 where
  pub attempt : ℕ
  pub delay : ℕ

pub record Run (V : Type 0) : Type 0 where
  pub result : Option (Outcome V)  -- none: the fuel ran out
  pub breaker : Option CircuitBreaker
  pub calls : ℕ
  pub sleeps : List Sleep

module _ {V : Type 0} where
  abbrev stopped : Outcome V → Option CircuitBreaker → ℕ → Run V
  stopped o b calls = record { result = some o; breaker = b; calls = calls; sleeps = [] }

  -- One more call and one more sleep before the rest of the run.
  abbrev after_sleep : ℕ → ℕ → Run V → Run V
  after_sleep n delay rest = record rest {
    calls = suc rest.calls;
    sleeps = record { attempt = n; delay = delay } ∷ rest.sleeps;
  }

  abbrev retry_or_raise :
      ℕ → DatabaseError → Option ℕ → Option CircuitBreaker → (Option CircuitBreaker → Run V) → Run V
  retry_or_raise n e none b rest = stopped (raised e) b 1
  retry_or_raise n e (some delay) b rest = after_sleep n delay (rest b)

  -- The `try` statement of one pass through the loop.
  abbrev attempt_once :
      Request
      → ℕ
      → Attempt V
      → Outcome V
      → Option CircuitBreaker
      → (Option CircuitBreaker → Run V)
      → Run V
  attempt_once r n a (returned v) b rest =
      stopped (returned v) (report_success a.reported_at a.emitted_at b) 1
  attempt_once r n a (raised e) b rest =
      retry_or_raise n e (next_delay r n a e) (report_error a.reported_at a.emitted_at e b) rest
  attempt_once r n a escaped b rest = stopped escaped b 1

  abbrev pass :
      Request
      → ℕ
      → Attempt V
      → Option CircuitBreaker × Bool
      → (Option CircuitBreaker → Run V)
      → Run V
  pass r n a (b, true) rest = attempt_once r n a a.outcome b rest
  pass r n a (b, false) rest = stopped (raised (circuit_error r)) b 0

  abbrev exhausted : Option CircuitBreaker → Run V
  exhausted b = record { result = none; breaker = b; calls = 0; sleeps = [] }

  -- The loop from attempt `n` on.
  unfoldable pub loop : ℕ → Request → (ℕ → Attempt V) → ℕ → Option CircuitBreaker → Run V
  loop zero r env n b = exhausted b
  loop (suc fuel) r env n b =
      pass r n (env n) (gate (env n).started_at b) (λ b'. loop fuel r env (suc n) b')

  unfoldable pub run_with_retries : Request → (ℕ → Attempt V) → Option CircuitBreaker → Run V
  unfolding loop
  run_with_retries r env b = loop (suc r.retry.attempts) r env 1 b
