-- ===== src/Routing.antt =====
-- _core/routing.py: targets and resolved routes. The resolvers and selectors are the modules below.
pub mod Hash
pub mod Range
pub mod Directory
pub mod RoundRobin
pub mod Weighted
mod Examples
use dbkit_sql.Prelude.{
  String, Option, none, some, Bool, true, false, ◌==◌, string_eq, Result, ok, err, if◌then◌else◌,
}
use dbkit_sql.Errors.{DatabaseError, routing_error, configuration_error, make, no_context}

pub data Role : Type 0 where
  write read prefer_replica primary_only : Role

pub record DatabaseTarget (K : Type 0) : Type 0 where
  pub database : String
  pub role : Role
  pub shard_key : Option K

unfoldable pub raise_routing : String → DatabaseError
raise_routing message = make routing_error message none no_context

unfoldable pub raise_configuration : String → DatabaseError
raise_configuration message = make configuration_error message none no_context

-- `__post_init__`
unfoldable pub construct : {K : Type 0} → DatabaseTarget K → Result DatabaseError (DatabaseTarget K)
unfolding raise_routing
construct t =
    if t.database == ""
    then err (raise_routing "DatabaseTarget.database must be a non-empty name")
    else ok t

unfoldable pub wants_replica : Role → Bool
wants_replica read = true
wants_replica prefer_replica = true
wants_replica _ = false

unfoldable pub requires_primary : Role → Bool
requires_primary write = true
requires_primary primary_only = true
requires_primary _ = false

pub data RouteRole : Type 0 where
  primary replica : RouteRole

pub record ResolvedRoute : Type 0 where
  pub database : String
  pub shard_id : String
  pub role : RouteRole
  pub replica_name : Option String
