-- ===== src/Pool.antt =====
-- _pool.py: what the listeners on a connection pool remember. A record of the pool is its number; its
-- `info` dict keeps the time of the checkout under a key of dbkit's own, so `infos` has one time for each
-- record. What a checkin observes is kept in `holds`, with whether it logs the warning. The gauges, the
-- owner and the context of a checkout are left out.
pub mod Holds
mod Examples
use dbkit_sql.Prelude.{
  ℕ, suc, ◌+◌, ◌-◌, min, String, Option, none, some, Bool, List, [], ◌∷◌, ◌++◌, leb, nat_eq, ℤ, pos,
  negsuc, pos_part, Fraction, nat_beq, if◌then◌else◌,
}
use dbkit_sql.Prelude.Dict.{Dict, get, set, remove}

pub record PoolInstrumentation : Type 0 where
  pub long_hold : ℕ
  pub created : ℕ
  pub closed : ℕ
  pub invalidations : ℕ
  pub checked_out : Dict ℕ ℕ
  pub infos : Dict ℕ ℕ
  pub holds : List (ℕ × Bool)  -- oldest first

-- `__init__`
unfoldable pub new_instrumentation : ℕ → PoolInstrumentation
new_instrumentation long_hold = record {
  long_hold = long_hold;
  created = 0;
  closed = 0;
  invalidations = 0;
  checked_out = [];
  infos = [];
  holds = [];
}

unfoldable pub on_connect : PoolInstrumentation → PoolInstrumentation
on_connect p = record p { created = suc p.created }

unfoldable pub on_checkout : ℕ → ℕ → PoolInstrumentation → PoolInstrumentation
unfolding set
on_checkout now id p = record p {
  infos = set p.infos id now;
  checked_out = set p.checked_out id now;
}

abbrev pub observed : Option ℕ → ℕ → PoolInstrumentation → PoolInstrumentation
observed none now p = p
observed (some started) now p = record p {
  holds = p.holds ++ (now - started, leb p.long_hold (now - started)) ∷ [];
}

unfoldable pub on_checkin : ℕ → ℕ → PoolInstrumentation → PoolInstrumentation
unfolding get remove
on_checkin now id p =
    observed (get p.infos id) now
      (record p { infos = remove p.infos id; checked_out = remove p.checked_out id })

unfoldable pub on_invalidate : PoolInstrumentation → PoolInstrumentation
on_invalidate p = record p { invalidations = suc p.invalidations }

unfoldable pub on_close : PoolInstrumentation → PoolInstrumentation
on_close p = record p { closed = suc p.closed }

-- What SQLAlchemy calls, at a clock reading where one is taken.
pub data PoolEvent : Type 0 where
  connected invalidated connection_closed : PoolEvent
  checks_out checks_in : ℕ → ℕ → PoolEvent

unfoldable pub pool_step : PoolEvent → PoolInstrumentation → PoolInstrumentation
unfolding on_connect on_checkout on_checkin on_invalidate on_close
pool_step connected p = on_connect p
pool_step invalidated p = on_invalidate p
pool_step connection_closed p = on_close p
pool_step (checks_out now id) p = on_checkout now id p
pool_step (checks_in now id) p = on_checkin now id p

unfoldable pub pool_run : List PoolEvent → PoolInstrumentation → PoolInstrumentation
pool_run [] p = p
pool_run (e ∷ es) p = pool_run es (pool_step e p)

abbrev pub earlier : ℕ → Option ℕ → Option ℕ
earlier t none = some t
earlier t (some u) = some (min t u)

-- `min(c.since for c in ...)`
unfoldable pub oldest_since : Dict ℕ ℕ → Option ℕ
oldest_since [] = none
oldest_since ((id, t) ∷ d) = earlier t (oldest_since d)

abbrev pub held_since : ℕ → Option ℕ → ℕ
held_since now none = 0
held_since now (some t) = now - t

unfoldable pub longest_current_hold : ℕ → PoolInstrumentation → ℕ
unfolding oldest_since
longest_current_hold now p = held_since now (oldest_since p.checked_out)

-- What the pool's own methods answer, 0 where it has none.
pub record PoolNumbers : Type 0 where
  pub size : ℕ
  pub checked_out : ℕ
  pub checked_in : ℕ
  pub overflow : ℤ
  pub max_overflow : ℤ

pub record PoolSnapshot : Type 0 where
  pub size : ℕ
  pub checked_out : ℕ
  pub checked_in : ℕ
  pub overflow : ℕ
  pub max_overflow : ℤ
  pub created : ℕ
  pub closed : ℕ
  pub invalidations : ℕ
  pub longest_current_hold_seconds : ℕ

unfoldable pub total_capacity : PoolSnapshot → ℕ
total_capacity s = s.size + pos_part s.max_overflow

unfoldable pub utilization : PoolSnapshot → Fraction
unfolding total_capacity
utilization s =
    if nat_beq (total_capacity s) 0
    then record { num = 0; den = 1 }
    else record { num = s.checked_out; den = total_capacity s }

unfoldable pub snapshot : ℕ → PoolNumbers → PoolInstrumentation → PoolSnapshot
unfolding longest_current_hold
snapshot now pool p = record {
  size = pool.size;
  checked_out = pool.checked_out;
  checked_in = pool.checked_in;
  overflow = pos_part pool.overflow;
  max_overflow = pool.max_overflow;
  created = p.created;
  closed = p.closed;
  invalidations = p.invalidations;
  longest_current_hold_seconds = longest_current_hold now p;
}
