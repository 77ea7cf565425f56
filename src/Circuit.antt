-- ===== src/Circuit.antt =====
-- _core/circuit.py: the circuit breaker. A time stamp is a number of clock ticks of the monotonic
-- clock, never negative; the lengths of the window and of the cooldown are in the same ticks.
pub mod Invariant
pub mod Trips
pub mod HalfOpen
mod Examples
use dbkit_sql.Prelude.{
  ℕ, suc, ◌+◌, ◌-◌, Bool, true, false, List, [], ◌∷◌, ◌++◌, ltb, leb, length, if◌then◌else◌,
}
use dbkit_sql.Errors.{ErrorCategory, availability, connection, pool, timeout, DatabaseError}

-- TRIPPING_CATEGORIES
unfoldable pub is_tripping : ErrorCategory → Bool
is_tripping availability = true
is_tripping connection = true
is_tripping pool = true
is_tripping timeout = true
is_tripping _ = false

unfoldable pub counts_as_failure : DatabaseError → Bool
unfolding is_tripping
counts_as_failure e = is_tripping e.category

pub data CircuitState : Type 0 where
  closed open_ half_open : CircuitState

pub record Settings : Type 0 where
  pub failure_threshold : ℕ
  pub window : ℕ
  pub open_time : ℕ
  pub half_open_max_calls : ℕ

pub record CircuitBreaker : Type 0 where
  pub settings : Settings
  pub open settings use *
  pub current : CircuitState
  pub failures : List ℕ  -- oldest first
  pub opened_at : ℕ
  pub half_open_calls : ℕ

unfoldable pub new : Settings → CircuitBreaker
new s = record { settings = s; current = closed; failures = []; opened_at = 0; half_open_calls = 0 }

-- the OPEN case of `state`: `now - opened_at >= open_seconds`
abbrev pub cooled : CircuitState → ℕ → CircuitBreaker → CircuitBreaker
cooled open_ now b =
    if leb (b.opened_at + b.open_time) now
    then record b { current = half_open; half_open_calls = 0 }
    else b
cooled _ now b = b

-- `state(now)`: the breaker after the call; the state that it returns is its field.
unfoldable pub state : ℕ → CircuitBreaker → CircuitBreaker
state now b = cooled b.current now b

abbrev admit : CircuitState → CircuitBreaker → CircuitBreaker × Bool
admit closed b = (b, true)
admit open_ b = (b, false)
admit half_open b =
    if ltb b.half_open_calls b.half_open_max_calls
    then (record b { half_open_calls = b.half_open_calls + 1 }, true)
    else (b, false)

unfoldable pub allow : ℕ → CircuitBreaker → CircuitBreaker × Bool
unfolding state
allow now b = let b' = state now b in admit b'.current b'

-- The loop of `_prune`, with `f < now - window` as `f + window < now`.
unfoldable pub drop_old : ℕ → ℕ → List ℕ → List ℕ
drop_old window now [] = []
drop_old window now (f ∷ fs) =
    let rest = drop_old window now fs in if ltb (f + window) now then rest else f ∷ fs

unfoldable pub prune : ℕ → CircuitBreaker → CircuitBreaker
prune now b = record b { failures = drop_old b.window now b.failures }

-- `_open`
unfoldable pub trip : ℕ → CircuitBreaker → CircuitBreaker
trip now b = record b { current = open_; opened_at = now; failures = []; half_open_calls = 0 }

-- `_reset`
unfoldable pub reset : CircuitBreaker → CircuitBreaker
reset b = record b { current = closed; failures = []; half_open_calls = 0 }

abbrev succeed : CircuitState → ℕ → CircuitBreaker → CircuitBreaker
succeed half_open now b = reset b
succeed closed now b = prune now b
succeed open_ now b = b

unfoldable pub on_success : ℕ → CircuitBreaker → CircuitBreaker
unfolding reset prune
on_success now b = succeed b.current now b

-- appends the failure, drops the old ones, and opens at the threshold
unfoldable pub count_failure : ℕ → CircuitBreaker → CircuitBreaker
unfolding prune trip
count_failure now b =
    let b' = prune now (record b { failures = b.failures ++ now ∷ [] }) in
    if leb b'.failure_threshold (length b'.failures) then trip now b' else b'

abbrev fail : CircuitState → ℕ → CircuitBreaker → CircuitBreaker
fail half_open now b = trip now b
fail _ now b = count_failure now b

unfoldable pub on_failure : ℕ → CircuitBreaker → CircuitBreaker
unfolding trip count_failure
on_failure now b = fail b.current now b

-- A call of one of the methods, at its time.
pub data Call : Type 0 where
  asks allows succeeds fails : Call

unfoldable pub step : CircuitBreaker → ℕ × Call → CircuitBreaker
unfolding allow on_success on_failure
step b (now, asks) = state now b
step b (now, allows) = (allow now b).0
step b (now, succeeds) = on_success now b
step b (now, fails) = on_failure now b

unfoldable pub run : CircuitBreaker → List (ℕ × Call) → CircuitBreaker
unfolding step
run b [] = b
run b (c ∷ cs) = run (step b c) cs
