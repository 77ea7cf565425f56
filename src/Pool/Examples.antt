-- ===== src/Pool/Examples.antt =====
-- The theorem on held connections applied to two checkouts.
use dbkit_sql.Prelude.{◌≡◌, refl, ◌≤◌, ◌-◌, ℕ, none, some, List, [], ◌∷◌, ◌++◌, leb}
use dbkit_sql.Pool.{
  PoolEvent, connected, checks_out, pool_run, new_instrumentation, longest_current_hold, on_checkin,
}
use dbkit_sql.Pool.Holds.{after_events, run-longest}

abbrev two_checkouts : List PoolEvent
two_checkouts = connected ∷ checks_out 3 1 ∷ connected ∷ checks_out 5 2 ∷ []

run-longest_example :
    let p = pool_run two_checkouts (new_instrumentation 4) in
    (9 - 5 ≤ longest_current_hold 9 p)
    × ((j : ℕ) × (t : ℕ) × (after_events j two_checkouts none ≡ some t)
        × (longest_current_hold 9 p ≡ 9 - t))
    × ((on_checkin 9 2 p).holds ≡ p.holds ++ (9 - 5, leb p.long_hold (9 - 5)) ∷ [])
run-longest_example = run-longest 4 9 2 5 two_checkouts refl
