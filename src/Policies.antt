-- ===== src/Policies.antt =====
-- _core/policies.py: timeouts, retry eligibility and backoff, with RetryConfig of _core/config.py.
-- Durations are in clock ticks. A remaining time can be negative, so timeouts are integers; delays
-- are natural numbers, and the multiplier and the random value are fractions that scale them.
pub mod Timeouts
pub mod Eligibility
pub mod Backoff
use dbkit_sql.Prelude.{
  ℕ, suc, ◌+◌, ◌-◌, ◌*◌, ◌/◌, ◌^◌, min, String, Option, none, some, Bool, true, false, ◌==◌,
  string_eq, ℤ, sub_ℕ, pos_part, neg_part, min_ℤ, Fraction, scale, leb, ltb, not, ◌&&◌,
  if◌then◌else◌, Result, ok, err, raise_if, ◌>>◌, ◌||◌,
}
use dbkit_sql.Errors.{DatabaseError, configuration_error, make, no_context}
use dbkit_sql.Query.{Query, is_write}

pub record RetryConfig : Type 0 where
  pub attempts : ℕ
  pub initial_delay : ℕ
  pub maximum_delay : ℕ
  pub multiplier : Fraction
  pub jitter : String
  pub maximum_total : ℕ
  pub retry_reads : Bool
  pub retry_writes : Bool

abbrev config_error : String → DatabaseError
config_error message = make configuration_error message none no_context

-- RetryConfig.validate; no count is negative here, and a negative one fails as 0 does.
unfoldable pub validate : RetryConfig → Result DatabaseError (Unit {0})
validate c =
    raise_if (ltb c.attempts 1) (config_error "retry.attempts must be >= 1")
    >> raise_if (not (c.jitter == "full" || c.jitter == "none"))
        (config_error "retry.jitter must be 'full' or 'none'")

abbrev query_timeout_of : Option Query → Option ℤ
query_timeout_of none = none
query_timeout_of (some q) = q.timeout

abbrev first_some : Option ℤ → Option ℤ → Option ℤ
first_some none b = b
first_some (some a) b = some a

unfoldable pub resolve_timeout : Option ℤ → Option Query → Option ℤ → Option ℤ
resolve_timeout call_timeout query default_timeout =
    first_some call_timeout (first_some (query_timeout_of query) default_timeout)

-- `deadline - now`
unfoldable pub remaining_deadline : Option ℕ → ℕ → Option ℤ
remaining_deadline none now = none
remaining_deadline (some deadline) now = some (sub_ℕ deadline now)

-- The least of the candidates that are not None.
abbrev tighter : Option ℤ → Option ℤ → Option ℤ
tighter none b = b
tighter (some a) none = some a
tighter (some a) (some b) = some (min_ℤ a b)

unfoldable pub effective_timeout : Option ℤ → Option Query → Option ℤ → Option ℕ → ℕ → Option ℤ
unfolding resolve_timeout remaining_deadline
effective_timeout call_timeout query default_timeout deadline now =
    tighter (resolve_timeout call_timeout query default_timeout) (remaining_deadline deadline now)

abbrev query_idempotent : Option Query → Bool
query_idempotent none = false
query_idempotent (some q) = q.idempotent

unfoldable pub is_idempotent : Option Query → Option Bool → Bool
is_idempotent query (some override) = override
is_idempotent query none = query_idempotent query

abbrev query_writes : Option Query → Bool
query_writes none = false
query_writes (some q) = is_write q

unfoldable pub should_retry : DatabaseError → Option Query → RetryConfig → ℕ → Option Bool → Bool
unfolding is_idempotent is_write
should_retry error query config attempt override =
    if leb config.attempts attempt
    then false
    else if not error.retryable
    then false
    else if error.transaction_state_unknown
    then false
    else if query_writes query
    then (if not config.retry_writes
        then false
        else if not (is_idempotent query override)
        then false
        else true)
    else if not config.retry_reads
    then false
    else true

-- `initial_delay * multiplier ** max(attempt - 1, 0)`, capped
unfoldable pub capped_delay : ℕ → RetryConfig → ℕ
capped_delay attempt config =
    min
      (config.initial_delay
        * config.multiplier.num ^ (attempt - 1)
        / config.multiplier.den ^ (attempt - 1))
      config.maximum_delay

unfoldable pub backoff_delay : ℕ → RetryConfig → Fraction → ℕ
unfolding capped_delay
backoff_delay attempt config rand =
    let capped = capped_delay attempt config in
    if config.jitter == "full" then scale capped rand else capped
