-- ===== src/Routing/Weighted.antt =====
-- WeightedReplicaSelector of _core/routing.py. `rand()` is a fraction in [0, 1), so the comparison
-- `rand() * total < upto` is made with both sides multiplied by its denominator.
use dbkit_sql.Prelude.{
  ℕ, ◌+◌, ◌*◌, ◌≤◌, ◌<◌, max, String, Option, none, some, string_eq, ◌≡◌, refl, List, [], ◌∷◌, ◌++◌,
  if◌then◌else◌, arith, or_else, Bool-cases, inl, inr, ltb, Fraction, ltb→lt, ap,
}
use dbkit_sql.Prelude.Dict.{Dict, get, set, remove}

abbrev pub Specs : Type 0
Specs = List (String × ℕ)

abbrev pub weight : ℕ → ℕ
weight w = max w 1

-- `sum(max(w, 1) for _, w in specs)`
unfoldable pub total : Specs → ℕ
total [] = 0
total ((n, w) ∷ specs) = weight w + total specs

abbrev last_name : String → Specs → String
last_name n [] = n
last_name n ((m, w) ∷ specs) = last_name m specs

-- The loop over the specs, with `upto` so far; `fallback` is `specs[-1][0]`.
unfoldable pub pick : ℕ → ℕ → ℕ → Specs → String → String
pick r den upto [] fallback = fallback
pick r den upto ((n, w) ∷ specs) fallback =
    let rest = pick r den (upto + weight w) specs fallback in
    if ltb r ((upto + weight w) * den) then n else rest

abbrev choose : Fraction → Specs → Option String
choose rand [] = none
choose rand ((n, w) ∷ specs) =
    let all = (n, w) ∷ specs in
    some (pick (rand.num * total all) rand.den 0 all (last_name n specs))

unfoldable pub select : Dict String Specs → Fraction → String → String → Option String
unfolding total pick
select replicas rand db shard_id = choose rand (or_else (get replicas db) [])

unfoldable pub set_replicas : Dict String Specs → String → Specs → Dict String Specs
set_replicas replicas db [] = remove replicas db
set_replicas replicas db (s ∷ specs) = set replicas db (s ∷ specs)

-- The replica whose share of the line from 0 to the total holds the point r / den: `before` weighs
-- what stands before it.
pub record Hit (r den upto : ℕ) (specs : Specs) (answer : String) : Type 0 where
  pub pre : Specs
  pub name_weight : ℕ
  pub post : Specs
  pub splits : specs ≡ pre ++ (answer, name_weight) ∷ post
  pub from : (upto + total pre) * den ≤ r
  pub to : r < (upto + total pre + weight name_weight) * den

pick-Hit :
    (r den upto : ℕ) (specs : Specs) (fallback : String)
    → upto * den ≤ r
    → r < (upto + total specs) * den
    → Hit r den upto specs (pick r den upto specs fallback)
unfolding total pick
pick-Hit r den upto [] fallback lo hi = absurd (ground arith)
pick-Hit r den upto ((n, w) ∷ specs) fallback lo hi =
    elim (Bool-cases (ltb r ((upto + weight w) * den))) [
      | inl hit ↦ rw hit (record {
        pre = [];
        name_weight = w;
        post = specs;
        splits = refl;
        from = omega arith;
        to = omega (arith, ltb→lt r _ hit);
      })
      | inr miss ↦
          let past : (upto + weight w) * den ≤ r = ground arith in
          let rest = pick-Hit r den (upto + weight w) specs fallback past (omega arith) in
          rw miss (record {
            pre = (n, w) ∷ rest.pre;
            name_weight = rest.name_weight;
            post = rest.post;
            splits = ap (◌∷◌ (n, w)) rest.splits;
            from = omega (arith, rest.from);
            to = omega (arith, rest.to);
          })
    ]

below_total : (num den t : ℕ) → num < den → 0 < t → num * t < t * den
below_total num den t h p = grind arith

-- With a random value in [0, 1) a database with replicas always gets one, and it is the one whose share,
-- of `max(weight, 1)` parts of the total, holds the random point; the fallback to the last replica is
-- never taken.
pub select-Hit :
    (replicas : Dict String Specs) (rand : Fraction) (db shard n : String) (w : ℕ) (specs : Specs)
    → get replicas db ≡ some ((n, w) ∷ specs)
    → rand.num < rand.den
    → (answer : String) × (select replicas rand db shard ≡ some answer)
      × Hit (rand.num * total ((n, w) ∷ specs)) rand.den 0 ((n, w) ∷ specs) answer
unfolding select
select-Hit replicas rand db shard n w specs e h = (
  pick (rand.num * total ((n, w) ∷ specs)) rand.den 0 ((n, w) ∷ specs) (last_name n specs),
  rw e refl,
  pick-Hit _ rand.den 0 ((n, w) ∷ specs) (last_name n specs) (omega arith)
      (omega (arith, below_total rand.num rand.den (total ((n, w) ∷ specs)) h (omega arith))),
)
