-- ===== src/Routing/Hash/Cache.antt =====
-- The cache of HashShardResolver: bounded, and invisible where equal keys print alike.
use dbkit_sql.Prelude.{
  ℕ, ◌≤◌, String, Option, none, some, Bool, true, false, ◌≡◌, refl, ◌∙◌, sym, ap, List, [], ◌∷◌,
  ◌++◌, ok, ltb, length, length-append, All, All-append, arith, Bool-cases, inl, inr,
}
use dbkit_sql.Routing.Hash.{
  HashShardResolver, cache_size, cached, take_out, entry_of, move_to_end, bucket_name, remember,
  resolve, resolve_all, answer,
}

ltb-false : (n : ℕ) → ltb cache_size n ≡ false → n ≤ cache_size
ltb-false n e = ground arith

module _ {K : Type 0} (same : K → K → Bool) where
  length-move_to_end : (c : List (K × String)) (k : K) → length (move_to_end same c k) ≡ length c
  unfolding move_to_end
  length-move_to_end [] k = refl
  length-move_to_end ((j, v) ∷ c) k = ground (
    arith,
    length-move_to_end c k,
    length-append (take_out same c k) (entry_of same c k),
    length-append c ((j, v) ∷ []),
  )

  module _ (P : K × String → Type 0) where
    take_out-All : (c : List (K × String)) (k : K) → All P c → All P (take_out same c k)
    take_out-All [] k h = tt
    take_out-All ((j, v) ∷ c) k h = elim (Bool-cases (same j k)) [
      | inl e ↦ rw e h.1
      | inr e ↦ rw e (h.0, take_out-All c k h.1)
    ]

    entry_of-All : (c : List (K × String)) (k : K) → All P c → All P (entry_of same c k)
    entry_of-All [] k h = tt
    entry_of-All ((j, v) ∷ c) k h = elim (Bool-cases (same j k)) [
      | inl e ↦ rw e (h.0, tt)
      | inr e ↦ rw e (entry_of-All c k h.1)
    ]

    move_to_end-All : (c : List (K × String)) (k : K) → All P c → All P (move_to_end same c k)
    unfolding move_to_end
    move_to_end-All c k h =
        All-append P (take_out same c k) (entry_of same c k) (take_out-All c k h)
          (entry_of-All c k h)

module _ {K : Type 0} where
  length-remember :
      (c : List (K × String)) (k : K) (v : String)
      → length c ≤ cache_size
      → length (remember c k v) ≤ cache_size
  length-remember [] k v h = omega arith
  length-remember (p ∷ c) k v h =
      elim (Bool-cases (ltb cache_size (length (p ∷ c ++ (k, v) ∷ [])))) [
        | inl e ↦ rw e (omega (arith, length-append c ((k, v) ∷ [])))
        | inr e ↦ rw e (ltb-false (length (p ∷ c ++ (k, v) ∷ [])) e)
      ]

  remember-All :
      (P : K × String → Type 0) (c : List (K × String)) (k : K) (v : String)
      → All P c
      → P (k, v)
      → All P (remember c k v)
  remember-All P [] k v h p = (p, tt)
  remember-All P (q ∷ c) k v h p =
      let rest = All-append P c ((k, v) ∷ []) h.1 (p, tt) in
      elim (Bool-cases (ltb cache_size (length (q ∷ c ++ (k, v) ∷ [])))) [
        | inl e ↦ rw e rest
        | inr e ↦ rw e (h.0, rest)
      ]

module _ {K : Type 0} (same : K → K → Bool) (digest : K → ℕ) where
  abbrev pub Bounded : HashShardResolver K → Type 0
  Bounded s = length s.cache ≤ cache_size

  answer-Bounded :
      (s : HashShardResolver K) (k : K) (o : Option String)
      → Bounded s
      → Bounded (answer same digest s k o).0
  answer-Bounded s k (some v) h = rw (length-move_to_end same s.cache k) h
  answer-Bounded s k none h =
      length-remember s.cache k (bucket_name s.num_shards s.prefix (digest k)) h

  resolve-Bounded :
      (s : HashShardResolver K) (k : Option K) → Bounded s → Bounded (resolve same digest s k).0
  unfolding resolve
  resolve-Bounded s none h = h
  resolve-Bounded s (some k) h = answer-Bounded s k (cached same s.cache k) h

  -- However many keys are resolved, the cache of a resolver whose cache is within `_CACHE_SIZE` entries
  -- stays within it.
  pub resolve_all-Bounded :
      (s : HashShardResolver K) (ks : List (Option K))
      → Bounded s
      → Bounded (resolve_all same digest s ks)
  unfolding resolve_all
  resolve_all-Bounded s [] h = h
  resolve_all-Bounded s (k ∷ ks) h =
      resolve_all-Bounded (resolve same digest s k).0 ks (resolve-Bounded s k h)

  -- Every cached name is the one that its key computes to.
  pub record IsCoherent (n : ℕ) (prefix : String) (s : HashShardResolver K) : Type 0 where
    pub shards : s.num_shards ≡ n
    pub named : s.prefix ≡ prefix
    pub entries : All (λ p. p.1 ≡ bucket_name n prefix (digest p.0)) s.cache

  module _ (alike : (a b : K) → same a b ≡ true → digest a ≡ digest b) (n : ℕ)
      (prefix : String) where
    cached_lem :
        (c : List (K × String)) (k : K) (v : String)
        → All (λ p. p.1 ≡ bucket_name n prefix (digest p.0)) c
        → cached same c k ≡ some v
        → v ≡ bucket_name n prefix (digest k)
    unfolding cached
    cached_lem [] k v h e = cc
    cached_lem ((j, w) ∷ c) k v h e = elim (Bool-cases (same j k)) [
      | inl hit ↦
          let w≡v : w ≡ v = ground arith in
          sym w≡v ∙ h.0 ∙ ap (bucket_name n prefix) (alike j k hit)
      | inr miss ↦ cached_lem c k v h.1 (rw miss at e)
    ]

    answer-IsCoherent :
        (s : HashShardResolver K) (k : K) (o : Option String)
        → IsCoherent n prefix s
        → cached same s.cache k ≡ o
        → ((answer same digest s k o).1 ≡ ok (bucket_name n prefix (digest k)))
          × IsCoherent n prefix (answer same digest s k o).0
    answer-IsCoherent s k (some v) h e = (
      ap ok (cached_lem s.cache k v h.entries e),
      record {
        shards = h.shards;
        named = h.named;
        entries = move_to_end-All same _ s.cache k h.entries;
      },
    )
    answer-IsCoherent s k none h e =
        let name : bucket_name s.num_shards s.prefix (digest k) ≡ bucket_name n prefix (digest k) =
          cc (h.shards, h.named) in
        (
          ap ok name,
          record {
            shards = h.shards;
            named = h.named;
            entries = remember-All _ s.cache k _ h.entries name;
          },
        )

    resolve-IsCoherent :
        (s : HashShardResolver K) (k : Option K)
        → IsCoherent n prefix s
        → IsCoherent n prefix (resolve same digest s k).0
    unfolding resolve
    resolve-IsCoherent s none h = h
    resolve-IsCoherent s (some k) h = (answer-IsCoherent s k (cached same s.cache k) h refl).1

    resolve_all-IsCoherent :
        (s : HashShardResolver K) (ks : List (Option K))
        → IsCoherent n prefix s
        → IsCoherent n prefix (resolve_all same digest s ks)
    unfolding resolve_all
    resolve_all-IsCoherent s [] h = h
    resolve_all-IsCoherent s (k ∷ ks) h =
        resolve_all-IsCoherent (resolve same digest s k).0 ks (resolve-IsCoherent s k h)

    -- Where keys that Python calls equal have the same digest, a resolver whose cache is coherent, such as
    -- a new one, routes a key to the shard that its digest determines, whatever keys it resolved before.
    pub resolve_pure :
        (s : HashShardResolver K) (ks : List (Option K)) (k : K)
        → IsCoherent n prefix s
        → (resolve same digest (resolve_all same digest s ks) (some k)).1
          ≡ ok (bucket_name n prefix (digest k))
    unfolding resolve
    resolve_pure s ks k h =
        (answer-IsCoherent (resolve_all same digest s ks) k _ (resolve_all-IsCoherent s ks h)
          refl).0

  -- From an empty cache, of two keys that Python calls equal (such as `1` and `True`) the second goes
  -- to the shard of its own digest if it comes alone, and to the shard of the first one's digest if
  -- that came before.
  pub resolve_by_history :
      (s : HashShardResolver K) (a b : K)
      → s.cache ≡ []
      → same a b ≡ true
      → ((resolve same digest s (some b)).1 ≡ ok (bucket_name s.num_shards s.prefix (digest b)))
        × ((resolve same digest (resolve same digest s (some a)).0 (some b)).1
            ≡ ok (bucket_name s.num_shards s.prefix (digest a)))
  unfolding resolve
  resolve_by_history s a b e h = ground arith
