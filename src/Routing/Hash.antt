-- ===== src/Routing/Hash.antt =====
-- HashShardResolver of _core/routing.py. `same` is Python's `==` (with `hash`) on shard keys, `digest`
-- the number read from the first eight bytes of SHA-256 of `str(key)`, both from outside.
pub mod Cache
use dbkit_sql.Prelude.{
  ℕ, zero, suc, ◌+◌, ◌-◌, ◌/◌, ◌%◌, ◌≤◌, ◌<◌, String, Option, none, some, Bool, true, false, ◌≡◌,
  ◌≢◌, refl, ◌∙◌, sym, ap, List, [], ◌∷◌, ◌++◌, Result, ok, err, ltb, if◌then◌else◌, length,
  length-append, All, All-append, arith, ◌<>◌, nat_beq, map,
}
use dbkit_sql.Errors.{DatabaseError}
use dbkit_sql.Routing.{raise_routing, raise_configuration}

abbrev digit : ℕ → String
digit n =
    if nat_beq n 0
    then "0"
    else if nat_beq n 1
    then "1"
    else if nat_beq n 2
    then "2"
    else if nat_beq n 3
    then "3"
    else if nat_beq n 4
    then "4"
    else if nat_beq n 5
    then "5"
    else if nat_beq n 6
    then "6"
    else if nat_beq n 7
    then "7"
    else if nat_beq n 8
    then "8"
    else "9"

-- The decimal digits; twenty are enough for a number of eight bytes.
unfoldable pub decimal : ℕ → ℕ → String
decimal zero n = digit (n % 10)
decimal (suc k) n =
    let front = decimal k (n / 10) in if ltb n 10 then digit n else front <> digit (n % 10)

-- `f"{n:03d}"`
unfoldable pub pad_three : ℕ → String
unfolding decimal
pad_three n =
    if ltb n 10
    then "00" <> decimal 20 n
    else if ltb n 100
    then "0" <> decimal 20 n
    else decimal 20 n

-- `_CACHE_SIZE`
abbrev pub cache_size : ℕ
cache_size = 4096

pub record HashShardResolver (K : Type 0) : Type 0 where
  pub num_shards : ℕ
  pub prefix : String
  pub cache : List (K × String)  -- oldest use first

unfoldable pub new : {K : Type 0} → ℕ → String → Result DatabaseError (HashShardResolver K)
new num_shards prefix =
    if ltb num_shards 1
    then err (raise_configuration "num_shards must be >= 1")
    else ok (record { num_shards = num_shards; prefix = prefix; cache = [] })

module _ {K : Type 0} (same : K → K → Bool) where
  -- `self._cache.get(shard_key)`
  unfoldable pub cached : List (K × String) → K → Option String
  cached [] k = none
  cached ((j, v) ∷ c) k = if same j k then some v else cached c k

  abbrev take_out : List (K × String) → K → List (K × String)
  take_out [] k = []
  take_out ((j, v) ∷ c) k = if same j k then c else (j, v) ∷ take_out c k

  abbrev entry_of : List (K × String) → K → List (K × String)
  entry_of [] k = []
  entry_of ((j, v) ∷ c) k = if same j k then (j, v) ∷ [] else entry_of c k

  -- `self._cache.move_to_end(shard_key)`
  unfoldable pub move_to_end : List (K × String) → K → List (K × String)
  move_to_end c k = take_out c k ++ entry_of c k

-- The shard name of a key with this digest, as computed on a cache miss.
unfoldable pub bucket_name : ℕ → String → ℕ → String
unfolding pad_three
bucket_name num_shards prefix digest = prefix <> "-" <> pad_three (digest % num_shards)

module _ {K : Type 0} where
  -- `popitem(last=False)`
  abbrev pop_oldest : List (K × String) → List (K × String)
  pop_oldest [] = []
  pop_oldest (p ∷ c) = c

  -- `self._cache[shard_key] = result` for a key that is not there, then the eviction
  abbrev remember : List (K × String) → K → String → List (K × String)
  remember c k v =
      let c' = c ++ (k, v) ∷ [] in if ltb cache_size (length c') then pop_oldest c' else c'

module _ {K : Type 0} (same : K → K → Bool) (digest : K → ℕ) where
  abbrev answer :
      HashShardResolver K → K → Option String → HashShardResolver K × Result DatabaseError String
  answer s k (some v) = (record s { cache = move_to_end same s.cache k }, ok v)
  answer s k none =
      let v = bucket_name s.num_shards s.prefix (digest k) in
      (record s { cache = remember s.cache k v }, ok v)

  unfoldable pub resolve :
      HashShardResolver K → Option K → HashShardResolver K × Result DatabaseError String
  unfolding cached move_to_end
  resolve s none = (s, err (raise_routing "hash sharding requires a shard_key"))
  resolve s (some k) = answer s k (cached same s.cache k)

  -- The resolver after resolving the keys in turn.
  unfoldable pub resolve_all : HashShardResolver K → List (Option K) → HashShardResolver K
  unfolding resolve
  resolve_all s [] = s
  resolve_all s (k ∷ ks) = resolve_all (resolve s k).0 ks
