-- ===== src/Database/Target.antt =====
-- `_resolve` of _async/database.py: from a target to a route.
use dbkit_sql.Prelude.{
  String, Option, none, some, Bool, true, false, List, [], ◌∷◌, not, string_eq, Result, ok, err,
  if◌then◌else◌, ◌&&◌,
}
use dbkit_sql.Prelude.Dict.{get}
use dbkit_sql.Errors.{DatabaseError}
use dbkit_sql.Config.{DatabaseConfig, TargetConfig}
use dbkit_sql.Routing.{
  DatabaseTarget, ResolvedRoute, primary, replica, raise_routing, wants_replica,
}
use dbkit_sql.Routing.RoundRobin.{RoundRobin, select}
use dbkit_sql.Database.{AsyncDatabase}

abbrev pub is_empty : List TargetConfig → Bool
is_empty [] = true
is_empty (x ∷ xs) = false

module _ {K : Type 0} (shards : String → K → Result DatabaseError String) where
  abbrev pub shard_of : String → Option K → Result DatabaseError String
  shard_of n none = ok "default"
  shard_of n (some k) = shards n k

  abbrev pub selected :
      String
      → String
      → RoundRobin × Option String
      → AsyncDatabase
      → AsyncDatabase × Result DatabaseError ResolvedRoute
  selected n shard (sel, none) s = (
    record s { selector = sel },
    ok (record { database = n; shard_id = shard; role = primary; replica_name = none }),
  )
  selected n shard (sel, some r) s = (
    record s { selector = sel },
    ok (record { database = n; shard_id = shard; role = replica; replica_name = some r }),
  )

  abbrev pub routed :
      Bool
      → DatabaseTarget K
      → DatabaseConfig
      → Result DatabaseError String
      → AsyncDatabase
      → AsyncDatabase × Result DatabaseError ResolvedRoute
  unfolding select wants_replica
  routed pinned t db (err e) s = (s, err e)
  routed pinned t db (ok shard) s =
      if wants_replica t.role && not (is_empty db.replicas) && not pinned
      then selected t.database shard (select s.selector t.database shard) s
      else (
        s,
        ok (record {
          database = t.database;
          shard_id = shard;
          role = primary;
          replica_name = none;
        }),
      )

  abbrev pub resolve_in :
      Bool
      → DatabaseTarget K
      → Option DatabaseConfig
      → AsyncDatabase
      → AsyncDatabase × Result DatabaseError ResolvedRoute
  resolve_in pinned t none s = (s, err (raise_routing "unknown database"))
  resolve_in pinned t (some db) s = routed pinned t db (shard_of t.database t.shard_key) s

  -- `_resolve`; `pinned` tells whether a consistency scope sends reads to the primary.
  unfoldable pub resolve_target :
      Bool → DatabaseTarget K → AsyncDatabase → AsyncDatabase × Result DatabaseError ResolvedRoute
  unfolding routed
  resolve_target pinned t s = resolve_in pinned t (get s.config.databases t.database) s
