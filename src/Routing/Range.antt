-- ===== src/Routing/Range.antt =====
-- RangeShardResolver of _core/routing.py, for integer shard keys.
use dbkit_sql.Prelude.{
  String, Option, none, some, ◌≡◌, refl, inl, inr, List, [], ◌∷◌, Result, ok, err, if◌then◌else◌,
  All, arith, ℤ, ltb_ℤ, ◌≤ℤ◌, ◌<ℤ◌, Bool-cases,
}
use dbkit_sql.Prelude.Sort.{
  sort_by, Some, IsSorted, of_sort_by-All, of_sort_by-Some, sort_by-IsSorted,
}
use dbkit_sql.Errors.{DatabaseError}
use dbkit_sql.Routing.{raise_routing, raise_configuration}

pub record ShardRange : Type 0 where
  pub upper_bound : ℤ
  pub shard_id : String

unfoldable pub new : List ShardRange → Result DatabaseError (List ShardRange)
new [] = err (raise_configuration "RangeShardResolver requires at least one range")
new (r ∷ rs) = ok (sort_by (λ x. x.upper_bound) (r ∷ rs))

-- The loop of `resolve`: the first range whose upper bound exceeds the key.
unfoldable pub first_above : ℤ → List ShardRange → Option ShardRange
first_above key [] = none
first_above key (r ∷ rs) = if ltb_ℤ key r.upper_bound then some r else first_above key rs

abbrev to_shard : Option ShardRange → Result DatabaseError String
to_shard (some r) = ok r.shard_id
to_shard none = err (raise_routing "shard_key exceeds the highest configured range")

unfoldable pub resolve : List ShardRange → Option ℤ → Result DatabaseError String
unfolding first_above
resolve ranges none = err (raise_routing "range sharding requires a shard_key")
resolve ranges (some key) = to_shard (first_above key ranges)

abbrev pub Above : ℤ → ShardRange → Type 0
Above key r = key <ℤ r.upper_bound

-- `r` is the tightest of the ranges above the key.
abbrev pub IsTightest : ℤ → List ShardRange → ShardRange → Type 0
IsTightest key rs r = Above key r × All (λ x. Above key x → r.upper_bound ≤ℤ x.upper_bound) rs

-- What a lookup says of a list of ranges, whatever their order.
abbrev pub Answers : ℤ → List ShardRange → Option ShardRange → Type 0
Answers key rs none = All (λ x. x.upper_bound ≤ℤ key) rs
Answers key rs (some r) = IsTightest key rs r × Some (λ x. x ≡ r) rs

weaken :
    (key : ℤ) (r : ShardRange) (rs : List ShardRange)
    → All (λ y. r.upper_bound ≤ℤ y.upper_bound) rs
    → All (λ x. Above key x → r.upper_bound ≤ℤ x.upper_bound) rs
weaken key r [] h = tt
weaken key r (x ∷ rs) h = ((λ _. h.0), weaken key r rs h.1)

cons-Answers :
    (key : ℤ) (r : ShardRange) (rs : List ShardRange) (o : Option ShardRange)
    → r.upper_bound ≤ℤ key
    → Answers key rs o
    → Answers key (r ∷ rs) o
cons-Answers key r rs none h a = (h, a)
cons-Answers key r rs (some x) h a = ((a.0.0, ((λ above. absurd (omega arith)), a.0.1)), inr a.1)

first_above-Answers :
    (key : ℤ) (rs : List ShardRange)
    → IsSorted (λ x. x.upper_bound) rs
    → Answers key rs (first_above key rs)
unfolding first_above
first_above-Answers key [] s = tt
first_above-Answers key (r ∷ rs) s = elim (Bool-cases (ltb_ℤ key r.upper_bound)) [
  | inl e ↦ rw e (((ground arith), ((λ _. omega arith), weaken key r rs s.0)), inl refl)
  | inr e ↦
      rw e
        (cons-Answers key r rs (first_above key rs) (ground arith) (first_above-Answers key rs s.1))
]

unsort-Answers :
    (key : ℤ) (rs : List ShardRange) (o : Option ShardRange)
    → Answers key (sort_by (λ x. x.upper_bound) rs) o
    → Answers key rs o
unsort-Answers key rs none a = of_sort_by-All (λ x. x.upper_bound) _ rs a
unsort-Answers key rs (some r) a = (
  (a.0.0, of_sort_by-All (λ x. x.upper_bound) _ rs a.0.1),
  of_sort_by-Some (λ x. x.upper_bound) _ rs a.1,
)

-- What `resolve` returns, read from the ranges as they were configured.
abbrev pub Routed : ℤ → List ShardRange → Result DatabaseError String → Type 0
Routed key rs (ok s) =
    (r : ShardRange) × (r.shard_id ≡ s) × IsTightest key rs r × Some (λ x. x ≡ r) rs
Routed key rs (err e) = All (λ x. x.upper_bound ≤ℤ key) rs

to_shard-Routed :
    (key : ℤ) (rs : List ShardRange) (o : Option ShardRange)
    → Answers key rs o
    → Routed key rs (to_shard o)
to_shard-Routed key rs none a = a
to_shard-Routed key rs (some r) a = (r, refl, a.0, a.1)

-- The ranges need not be sorted by the caller: a key goes to the shard of a configured range whose
-- upper bound is the least one above the key, and only a key above every range is refused.
pub resolve-tightest :
    (r : ShardRange) (rs sorted : List ShardRange) (key : ℤ)
    → new (r ∷ rs) ≡ ok sorted
    → Routed key (r ∷ rs) (resolve sorted (some key))
unfolding new resolve
resolve-tightest r rs sorted key e =
    let p : sort_by (λ x. x.upper_bound) (r ∷ rs) ≡ sorted = cc e in
    rw (← p) (
      to_shard-Routed key (r ∷ rs) _ (
        unsort-Answers key (r ∷ rs) _
          (first_above-Answers key _ (sort_by-IsSorted (λ x. x.upper_bound) (r ∷ rs)))))
