-- ===== src/Integrations/Problem.antt =====
-- integrations/fastapi.py: the HTTP answer to a DatabaseError. `second` is the number of clock ticks in a
-- second. The body is its type, title and status; the path and the detail are left out, since nothing
-- is decided on them.
use dbkit_sql.Prelude.{
  ℕ, ◌+◌, ◌-◌, ◌*◌, ◌/◌, ◌≤◌, ◌<◌, ◌≡◌, refl, max, String, Option, none, some, true, arith,
  if◌then◌else◌, leb, if-true, ap,
}
use dbkit_sql.Errors.{DatabaseError, is_overload, is_timeout, circuit_open, make, Context}
use dbkit_sql.Config.{DbkitConfig}
use dbkit_sql.Circuit.{CircuitBreaker, CircuitState, open_, half_open, closed, cooled, state}

pub record Problem : Type 0 where
  pub slug : String
  pub title : String
  pub status : ℕ
  pub retry_after : Option ℕ  -- the header, in seconds

-- `max(int(-(-open_seconds // 1)), 1)`: rounded up to whole seconds
abbrev pub ceil_seconds : ℕ → ℕ → ℕ
ceil_seconds second ticks = max ((ticks + (second - 1)) / second) 1

-- `_derive_retry_after`, with the configuration of the facade where one is given
unfoldable pub derive_retry_after : ℕ → Option DbkitConfig → ℕ
derive_retry_after second none = 2
derive_retry_after second (some config) =
    ceil_seconds second config.defaults.circuit_breaker.open_time

abbrev pub or_derived : Option ℕ → ℕ → ℕ
or_derived none d = d
or_derived (some n) d = n

-- The header's value that `install_exception_handlers` fixes.
unfoldable pub retry_after_seconds : ℕ → Option ℕ → Option DbkitConfig → ℕ
unfolding derive_retry_after
retry_after_seconds second given config = or_derived given (derive_retry_after second config)

-- `_database_error_handler`
unfoldable pub database_error_handler : ℕ → DatabaseError → Problem
unfolding is_timeout is_overload
database_error_handler retry_after e =
    if is_timeout e.category
    then record {
      slug = "database-timeout";
      title = "Database query exceeded its time budget";
      status = 504;
      retry_after = none;
    }
    else (if is_overload e.category
        then record {
          slug = "database-overloaded";
          title = "Database is temporarily overloaded";
          status = 503;
          retry_after = some retry_after;
        }
        else record {
          slug = "database-error";
          title = "An unexpected database error occurred";
          status = 500;
          retry_after = none;
        })

ceil_covers : (second ticks : ℕ) → 0 < second → ticks ≤ second * ceil_seconds second ticks
ceil_covers second ticks h = grind arith

-- A request that meets an open circuit is answered with 503. Where the handler was given the facade and no
-- value of its own, and the breaker has the open time of the facade's configuration, its Retry-After is
-- long enough: if nothing is reported to the breaker meanwhile, a client that comes back that many seconds
-- later finds it half-open.
pub retry_after-half_open :
    (second now : ℕ) (config : DbkitConfig) (b : CircuitBreaker) (message : String) (ctx : Context)
    → 0 < second
    → config.defaults.circuit_breaker.open_time ≡ b.open_time
    → b.current ≡ open_
    → b.opened_at ≤ now
    → let wait = retry_after_seconds second none (some config) in
      let answer = database_error_handler wait (make circuit_open message none ctx) in
      (answer.status ≡ 503)
      × (answer.retry_after ≡ some wait)
      × ((state (now + second * wait) b).current ≡ half_open)
unfolding database_error_handler make retry_after_seconds derive_retry_after state
retry_after-half_open second now config b message ctx h t o e =
    let long = ceil_covers second open_time h in
    let later : leb (b.opened_at + b.open_time) (now + second * wait) ≡ true =
      ground (arith, long, t) in
    (refl, refl, by_state b.current o later)
  where
    open_time : ℕ
    open_time = config.defaults.circuit_breaker.open_time

    wait : ℕ
    wait = ceil_seconds second open_time

    by_state :
        (c : CircuitState)
        → c ≡ open_
        → leb (b.opened_at + b.open_time) (now + second * wait) ≡ true
        → (cooled c (now + second * wait) b).current ≡ half_open
    by_state open_ f g = ap (λ (x : CircuitBreaker). x.current) (if-true _ _ g)
    by_state closed f g = cc
    by_state half_open f g = cc
