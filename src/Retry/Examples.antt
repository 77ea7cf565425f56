-- ===== src/Retry/Examples.antt =====
-- The theorems on the retry loop applied to a read that fails once with a deadlock.
use dbkit_sql.Prelude.{
  ◌≡◌, refl, inl, inr, ◌≤◌, ◌+◌, ◌*◌, suc, zero, true, false, none, some, ℕ, [], is_some,
}
use dbkit_sql.Errors.{DatabaseError, no_context, deadlock, integrity_error, make}
use dbkit_sql.Circuit.{CircuitBreaker, half_open, counts_as_failure}
use dbkit_sql.Query.{Query, text_clause, write, is_write}
use dbkit_sql.Policies.{RetryConfig, should_retry}
use dbkit_sql.Retry.{Attempt, Outcome, Request, returned, raised, run_with_retries}
use dbkit_sql.Retry.Terminates.{run_with_retries_total, unsafe_write_once}
use dbkit_sql.Retry.Breaker.{IsExhausted, trial_leaks}

abbrev config : RetryConfig
config = record {
  attempts = 3;
  initial_delay = 50;
  maximum_delay = 150;
  multiplier = record { num = 2; den = 1 };
  jitter = "none";
  maximum_total = 500;
  retry_reads = true;
  retry_writes = false;
}

abbrev insert_user : Query
insert_user = record {
  identity = 1;
  name = "users.insert";
  statement = text_clause "INSERT";
  operation = write;
  timeout = none;
  idempotent = false;
  expensive = false;
  sensitive_parameters = [];
  settings = none;
}

abbrev read_request : Request
read_request = record {
  query = none;
  retry = config;
  override = none;
  deadline = some 900;
  context = no_context;
  began = 0;
}

abbrev write_request : Request
write_request = record read_request { query = some insert_user }

abbrev deadlocked : DatabaseError
deadlocked = make deadlock "deadlock detected" none no_context

abbrev violated : DatabaseError
violated = make integrity_error "violated" none no_context

abbrev outcome_of : ℕ → Outcome ℕ
outcome_of zero = raised deadlocked
outcome_of (suc zero) = raised deadlocked
outcome_of (suc (suc n)) = returned 7

-- An attempt every 200 ticks.
abbrev world : ℕ → Attempt ℕ
world n = record {
  started_at = 200 * n;
  outcome = outcome_of n;
  reported_at = 200 * n + 5;
  emitted_at = 200 * n + 5;
  rand = record { num = 1; den = 2 };
  deadline_at = 200 * n + 6;
  elapsed_at = 200 * n + 6;
}

-- Every attempt ends with an integrity error.
abbrev violating : ℕ → Attempt ℕ
violating n = record (world n) { outcome = raised violated }

abbrev trying : CircuitBreaker
trying = record {
  settings = record { failure_threshold = 2; window = 10; open_time = 30; half_open_max_calls = 1 };
  current = half_open;
  failures = [];
  opened_at = 7;
  half_open_calls = 0;
}

run_with_retries_total_example : is_some (run_with_retries read_request world none).result ≡ true
run_with_retries_total_example = run_with_retries_total read_request world none

unsafe_write_once_example :
    ((run_with_retries write_request world none).calls ≤ 1)
    × ((run_with_retries write_request world none).sleeps ≡ [])
unfolding is_write
unsafe_write_once_example = unsafe_write_once write_request world none refl (inr refl)

trial_leaks_example :
    (b' : CircuitBreaker) × ((run_with_retries read_request violating (some trying)).breaker
      ≡ some b')
    × IsExhausted b'
unfolding counts_as_failure should_retry make
trial_leaks_example =
    trial_leaks read_request violating trying refl refl (inl (violated, refl, refl, refl))
