-- ===== src/Routing/Directory.antt =====
-- DirectoryShardResolver, SingleShardResolver and CallableShardResolver of _core/routing.py.
use dbkit_sql.Prelude.{
  String, Option, none, some, HasEquality, ◌==◌, ◌≡◌, refl, List, [], ◌∷◌, Result, ok, err,
  if◌then◌else◌, arith,
}
use dbkit_sql.Prelude.Dict.{Dict, get, set, get-set}
use dbkit_sql.Errors.{DatabaseError}
use dbkit_sql.Routing.{raise_routing}

unfoldable pub single_resolve : {K : Type 0} → String → K → Result DatabaseError String
single_resolve database shard_key = ok "default"

unfoldable pub callable_resolve :
    {K : Type 0}
    → (String → K → Result DatabaseError String)
    → String
    → K
    → Result DatabaseError String
callable_resolve fn database shard_key = fn database shard_key

abbrev or_unmapped : Option String → Result DatabaseError String
or_unmapped (some s) = ok s
or_unmapped none = err (raise_routing "no shard mapping for key")

module _ {K : Type 0} ⦃e : HasEquality K⦄ where
  unfoldable pub resolve : Dict K String → K → Result DatabaseError String
  resolve directory shard_key = or_unmapped (get directory shard_key)

  unfoldable pub set_mapping : Dict K String → K → String → Dict K String
  set_mapping directory shard_key shard_id = set directory shard_key shard_id

  -- The mapping after a list of updates.
  unfoldable pub set_mappings : Dict K String → List (K × String) → Dict K String
  unfolding set_mapping
  set_mappings d [] = d
  set_mappings d ((k, s) ∷ ps) = set_mappings (set_mapping d k s) ps

  -- The shard that the last update of a key names, or the one that it had.
  abbrev pub last_of :
      Result DatabaseError String → K → List (K × String) → Result DatabaseError String
  last_of start k [] = start
  last_of start k ((j, s) ∷ ps) = last_of (if j == k then ok s else start) k ps

  or_unmapped-if :
      (d : Dict K String) (j k : K) (s : String)
      → resolve (set d j s) k ≡ (if j == k then ok s else resolve d k)
  unfolding resolve
  or_unmapped-if d j k s = ground (arith, get-set d j k s)

  -- After any updates a key resolves to the shard of its last update; one never updated resolves as
  -- before, and fails closed if it has no mapping.
  pub resolve-set_mappings :
      (d : Dict K String) (ps : List (K × String)) (k : K)
      → resolve (set_mappings d ps) k ≡ last_of (resolve d k) k ps
  unfolding set_mappings
  resolve-set_mappings d [] k = refl
  resolve-set_mappings d ((j, s) ∷ ps) k =
      rw (← or_unmapped-if d j k s) (resolve-set_mappings (set d j s) ps k)
