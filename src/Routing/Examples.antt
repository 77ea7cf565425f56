-- ===== src/Routing/Examples.antt =====
-- The theorems on resolvers applied to small configurations.
use dbkit_sql.Prelude.{
  ◌≡◌, refl, true, some, ℕ, [], ◌∷◌, ok, nat_beq, nat_beq_iff, nat_eq, string_eq, ap, ◌*◌,
}
use dbkit_sql.Routing.Hash.{HashShardResolver, bucket_name, resolve, resolve_all}
use dbkit_sql.Routing.Hash.Cache.{IsCoherent, resolve_pure}

abbrev four_shards : HashShardResolver ℕ
four_shards = record { num_shards = 4; prefix = "shard"; cache = [] }

abbrev digest : ℕ → ℕ
digest k = k * 7

digests-agree : (a b : ℕ) → nat_beq a b ≡ true → digest a ≡ digest b
digests-agree a b h = ap digest ((nat_beq_iff a b).0 h)

coherent : IsCoherent nat_beq digest 4 "shard" four_shards
coherent = record { shards = refl; named = refl; entries = tt }

resolve_pure_example :
    (resolve nat_beq digest
      (resolve_all nat_beq digest four_shards (some 1 ∷ some 2 ∷ []))
      (some 1)).1
    ≡ ok (bucket_name 4 "shard" 7)
resolve_pure_example =
    resolve_pure nat_beq digest digests-agree 4 "shard" four_shards (some 1 ∷ some 2 ∷ []) 1
      coherent
