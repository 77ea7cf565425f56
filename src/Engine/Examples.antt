-- ===== src/Engine/Examples.antt =====
-- The theorems on the registry applied to two databases and a cap of one engine.
use dbkit_sql.Prelude.{
  ◌≡◌, refl, ℕ, String, Option, none, some, [], ◌∷◌, arith, ok, err, string_eq, List,
}
use dbkit_sql.Prelude.Dict.{get, remove}
use dbkit_sql.Config.{PoolConfig, TargetConfig}
use dbkit_sql.Config.Samples.{plain_config, main_target, scheme}
use dbkit_sql.Routing.{ResolvedRoute, primary, raise_configuration}
use dbkit_sql.Engine.{
  AsyncEngineRegistry, EngineEntry, EngineKey, key_string, key_for, target_for, get_engine,
  get_locked, empty_registry,
}
use dbkit_sql.Engine.Events.{Event, gets, disposes, run}
use dbkit_sql.Engine.Bounds.{Inv, run-empty-Inv}
use dbkit_sql.Engine.Victim.{Full, Replaced, new_entry, evicts_least_used, failed_build_leaks}
use dbkit_sql.Engine.Lookup.{Serves, get_engine-Serves}

abbrev route : ResolvedRoute
route = record { database = "main"; shard_id = "default"; role = primary; replica_name = none }

abbrev other_route : ResolvedRoute
other_route = record route { shard_id = "shard-1" }

-- Every engine that is created is number 7.
abbrev creates_seven : TargetConfig → PoolConfig → Option ℕ
creates_seven t p = some 7

abbrev refuses : TargetConfig → PoolConfig → Option ℕ
refuses t p = none

abbrev main_key : EngineKey
main_key = record {
  environment = "test";
  database = "main";
  shard_id = "default";
  role = "primary";
  driver = "psycopg";
}

abbrev other_key : EngineKey
other_key = record main_key { shard_id = "shard-1" }

abbrev main_entry : EngineEntry
main_entry = record { key = main_key; engine = 3; target = main_target; last_used = 10 }

-- The engine of `main` is live.
abbrev one_live : AsyncEngineRegistry
one_live = record {
  entries = ("test:main:default:primary:psycopg", main_entry) ∷ [];
  disposed = [];
}

one_live-Inv : Inv plain_config one_live
unfolding get key_string
one_live-Inv = record { distinct = (refl, tt); keyed = (refl, tt); bounded = λ n m. ground arith }

abbrev main_string : String
main_string = "test:main:default:primary:psycopg"

abbrev events : List Event
events = gets 5 route ∷ gets 6 other_route ∷ disposes main_string ∷ []

run-empty-Inv_example :
    Inv plain_config (run scheme creates_seven plain_config empty_registry events)
run-empty-Inv_example = run-empty-Inv scheme creates_seven plain_config events

get_engine-Serves_example :
    Serves 20
      (key_string (key_for scheme creates_seven plain_config route main_target))
      one_live
      (get_engine scheme creates_seven plain_config 20 route one_live)
unfolding target_for get
get_engine-Serves_example =
    get_engine-Serves scheme creates_seven plain_config 20 route main_target one_live one_live-Inv
      refl

full :
    (create : TargetConfig → PoolConfig → Option ℕ)
    → Full scheme create plain_config 20 other_key main_target one_live
unfolding get key_string
full create = record {
  limit = 1;
  capped = refl;
  reached = omega arith;
  evicts = refl;
  absent = refl;
  live = omega arith;
}

evicts_least_used_example :
    (k : String) × (victim : EngineEntry) × ((get_locked scheme creates_seven plain_config 20
        other_key main_target one_live).1
      ≡ ok (new_entry scheme creates_seven plain_config 20 other_key main_target one_live 7))
    × Replaced scheme creates_seven plain_config 20 other_key main_target one_live k victim
        (new_entry scheme creates_seven plain_config 20 other_key main_target one_live 7)
        (get_locked scheme creates_seven plain_config 20 other_key main_target one_live).0
evicts_least_used_example =
    evicts_least_used scheme creates_seven plain_config 20 other_key main_target one_live 7
      one_live-Inv (full creates_seven) refl

failed_build_leaks_example :
    (k : String) × (victim : EngineEntry) × (get one_live.entries k ≡ some victim)
    × (get_locked scheme refuses plain_config 20 other_key main_target one_live ≡ (
      record { entries = remove one_live.entries k; disposed = [] },
      err (raise_configuration "failed to create engine"),
    ))
    × (get (remove one_live.entries k) k ≡ none)
failed_build_leaks_example =
    failed_build_leaks scheme refuses plain_config 20 other_key main_target one_live one_live-Inv
      (full refuses) refl
