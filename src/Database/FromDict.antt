-- ===== src/Database/FromDict.antt =====
-- The facade of a configuration that `from_dict` gave.
use dbkit_sql.Prelude.{All, ℕ, ◌≡◌, String, Option, Bool, List, ok}
use dbkit_sql.Config.{DatabaseConfig, DbkitConfig, PoolConfig, TargetConfig}
use dbkit_sql.Config.Tree.{Entries, Numbers}
use dbkit_sql.Config.Loading.{from_dict}
use dbkit_sql.Config.Loading.Loads.{HasDatabases, from_dict-valid}
use dbkit_sql.Database.{new_database}
use dbkit_sql.Database.Budget.{NoneNegative}
use dbkit_sql.Database.Events.{Event, run}
use dbkit_sql.Database.Lifetime.{CountsUp, InBudget, run-validated-InBudget}

-- From the dict to the running facade: a configuration that `from_dict` accepts has exactly the databases of
-- the dict's mapping, in its order. As long as none of them and none that is registered afterwards counts
-- less than zero connections, as negative sizes of its targets' own pools make it, a facade built from it
-- keeps the enforced connection budget of its process whatever databases are registered, ensured and
-- unregistered.
pub from_dict-InBudget :
    (python : Numbers) (scheme : String → String) (replica_name : ℕ → String)
    (create : TargetConfig → PoolConfig → Option ℕ) (same : DatabaseConfig → DatabaseConfig → Bool)
    (raw : Entries) (c : DbkitConfig) (es : List Event)
    → from_dict python scheme replica_name raw ≡ ok c
    → NoneNegative c.defaults c.databases
    → All (CountsUp c.defaults) es
    → HasDatabases python scheme replica_name raw c
      × InBudget (run scheme create same (new_database c) es)
from_dict-InBudget python scheme replica_name create same raw c es h n m =
    let (valid, databases, _) = from_dict-valid python scheme replica_name raw c h in
    (databases, run-validated-InBudget scheme create same c es valid n m)
