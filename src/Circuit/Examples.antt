-- ===== src/Circuit/Examples.antt =====
-- The theorem on the circuit breaker applied to one with small numbers.
use dbkit_sql.Prelude.{◌≡◌, refl, ◌↔◌, ◌≤◌, suc, [], ◌∷◌, arith, List, ℕ}
use dbkit_sql.Circuit.{Settings, Call, open_, allows, fails, new, on_failure, drop_old, run}
use dbkit_sql.Circuit.Trips.{recent, on_failure-opens_iff}

-- Two failures in ten ticks open it for thirty; one trial.
abbrev settings : Settings
settings = record { failure_threshold = 2; window = 10; open_time = 30; half_open_max_calls = 1 }

abbrev one_failure : List (ℕ × Call)
one_failure = (3, fails) ∷ (4, allows) ∷ []

on_failure-opens_iff_example : ((on_failure 9 (run (new settings) one_failure)).current ≡ open_) ↔ (
    (run (new settings) one_failure).failure_threshold
    ≤ suc (
        recent (run (new settings) one_failure).window 9 (run (new settings) one_failure).failures))
unfolding new run drop_old
on_failure-opens_iff_example = on_failure-opens_iff settings one_failure 9 (omega arith) refl
