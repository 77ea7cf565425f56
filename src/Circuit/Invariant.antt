-- ===== src/Circuit/Invariant.antt =====
-- What holds of a breaker between two calls, and the diagram of its states.
use dbkit_sql.Prelude.{ℕ, ◌≤◌, ◌<◌, ◌≡◌, ◌⊎◌, List, [], ◌∷◌, arith, length}
use dbkit_sql.Circuit.{
  CircuitBreaker, CircuitState, Settings, closed, open_, half_open, Call, asks, allows, succeeds,
  fails, new, state, allow, drop_old, on_success, count_failure, on_failure, step, run,
}

pub record Inv (s : Settings) (b : CircuitBreaker) : Type 0 where
  pub same_settings : b.settings ≡ s
  pub below_threshold : length b.failures < s.failure_threshold
  pub trials_capped : b.half_open_calls ≤ s.half_open_max_calls
  pub trials_in_half_open : 0 < b.half_open_calls → b.current ≡ half_open

pub length-drop_old-le : (w now : ℕ) (fs : List ℕ) → length (drop_old w now fs) ≤ length fs
unfolding drop_old
length-drop_old-le w now [] = omega arith
length-drop_old-le w now (f ∷ fs) = ground (arith, length-drop_old-le w now fs)

module _ (s : Settings) where
  pub new-Inv : 0 < s.failure_threshold → Inv s (new s)
  unfolding new
  new-Inv h = ground arith

  state-Inv : (now : ℕ) {b : CircuitBreaker} → Inv s b → Inv s (state now b)
  unfolding state
  state-Inv now h = ground arith

  allow-Inv : (now : ℕ) {b : CircuitBreaker} → Inv s b → Inv s (allow now b).0
  unfolding allow
  allow-Inv now {b} h = ground (arith, state-Inv now {b = b} h)

  on_success-Inv : (now : ℕ) {b : CircuitBreaker} → Inv s b → Inv s (on_success now b)
  unfolding on_success
  on_success-Inv now {b} h = ground (arith, length-drop_old-le b.window now b.failures)

  on_failure-Inv :
      (now : ℕ) {b : CircuitBreaker} → 0 < s.failure_threshold → Inv s b → Inv s (on_failure now b)
  unfolding on_failure
  on_failure-Inv now {b} p h = ground arith

  -- Every call keeps the invariant.
  pub step-Inv :
      (b : CircuitBreaker) (c : ℕ × Call) → 0 < s.failure_threshold → Inv s b → Inv s (step b c)
  unfolding step
  step-Inv b (now, asks) p h = state-Inv now h
  step-Inv b (now, allows) p h = allow-Inv now h
  step-Inv b (now, succeeds) p h = on_success-Inv now h
  step-Inv b (now, fails) p h = on_failure-Inv now p h

  pub run-Inv :
      (b : CircuitBreaker) (cs : List (ℕ × Call))
      → 0 < s.failure_threshold
      → Inv s b
      → Inv s (run b cs)
  unfolding run
  run-Inv b [] p h = h
  run-Inv b (c ∷ cs) p h = run-Inv (step b c) cs p (step-Inv b c p h)

  -- After any calls at any times, a new breaker with a threshold of at least 1 holds fewer failures
  -- than the threshold and has admitted at most `half_open_max_calls` trials, none of them outside
  -- HALF_OPEN.
  pub run-new-Inv : (cs : List (ℕ × Call)) → 0 < s.failure_threshold → Inv s (run (new s) cs)
  run-new-Inv cs p = run-Inv (new s) cs p (new-Inv p)

-- The diagram: CLOSED is left for OPEN, OPEN for HALF_OPEN, and HALF_OPEN for either.
infix 40 ◌⟶◌
pub data ◌⟶◌ : CircuitState → CircuitState → Type 0 where
  stay : {s : CircuitState} → s ⟶ s
  trips : closed ⟶ open_
  cools : open_ ⟶ half_open
  recovers : half_open ⟶ closed
  relapses : half_open ⟶ open_

allow-⟶ : (b : CircuitBreaker) (now : ℕ) → b.current ⟶ (allow now b).0.current
unfolding allow
allow-⟶ b now = grind (arith, stay, cools)

count_failure-⟶ :
    (b : CircuitBreaker) (now : ℕ)
    → (b.current ≡ closed) ⊎ (b.current ≡ open_)
    → b.current ⟶ (count_failure now b).current
unfolding count_failure
count_failure-⟶ b now h = grind (arith, stay, trips)

-- Every call moves the breaker along an edge of the diagram or leaves its state: it never goes from
-- OPEN to CLOSED without trials, nor from CLOSED to HALF_OPEN.
pub step-⟶ : (b : CircuitBreaker) (c : ℕ × Call) → b.current ⟶ (step b c).current
unfolding step
step-⟶ b (now, asks) = unfold state in grind (arith, stay, cools)
step-⟶ b (now, allows) = allow-⟶ b now
step-⟶ b (now, succeeds) = grind (arith, stay, recovers)
step-⟶ b (now, fails) = grind (arith, stay, trips, relapses)
