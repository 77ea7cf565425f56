-- ===== src/Bulk/Examples.antt =====
-- The theorems on batches applied to a few rows.
use dbkit_sql.Prelude.{
  ◌≡◌, refl, ◌+◌, none, some, ℕ, String, List, [], ◌∷◌, All, ok, true, false, length, string_eq,
}
use dbkit_sql.Prelude.Dict.{Dict, get}
use dbkit_sql.Errors.{database_error, make, no_context}
use dbkit_sql.Errors.Classify.{Raised, database}
use dbkit_sql.Executor.Scope.{Target, World}
use dbkit_sql.Bulk.Modes.{Attempt, bulk_best_effort, begin}
use dbkit_sql.Bulk.Modes.Accounts.{bulk_best_effort-accounts, failed_commit_counted}
use dbkit_sql.Bulk.{Row, Value, bytes, null}
use dbkit_sql.Bulk.Plan.{for_batch, arrays}
use dbkit_sql.Bulk.Plan.Server.{flattened, unnest}
use dbkit_sql.Bulk.Plan.Unnest.{AllOfLength, Shares, unnest-columnar}

abbrev row : Row
row = ("id", bytes (1 ∷ 2 ∷ 3 ∷ [])) ∷ ("note", null) ∷ []

abbrev quiet : World
quiet = record { connects = none; commits = none; rolls_back = none; closes = none }

abbrev failure : Raised
failure = database (make database_error "broken" none no_context)

abbrev target : Target
target = record { database = "main"; shard_id = "default"; role = "primary"; query_name = "insert" }

abbrev unchanged : String → String
unchanged s = s

-- Every statement succeeds.
abbrev smooth : ℕ → Attempt
smooth n = record { world = quiet; statement = ok 0 }

-- Every commit fails.
abbrev uncommitted : ℕ → Attempt
uncommitted n = record { world = record quiet { commits = some failure }; statement = ok 0 }

abbrev batches : List (List ℕ)
batches = (1 ∷ 2 ∷ []) ∷ (3 ∷ []) ∷ []

all_written : (bulk_best_effort unchanged target smooth true batches begin).1 ≡ ok tt
unfolding bulk_best_effort
all_written = refl

none_reported : (n k : ℕ) → (smooth n).statement ≡ ok k → k ≡ 0
none_reported n k e = cc e

bulk_best_effort-accounts_example :
    (bulk_best_effort unchanged target smooth true batches begin).0.written
      + (bulk_best_effort unchanged target smooth true batches begin).0.dropped
    ≡ 3
bulk_best_effort-accounts_example =
    bulk_best_effort-accounts unchanged target smooth (λ n. refl) none_reported true batches
      all_written

abbrev batch : List ℕ
batch = 1 ∷ 2 ∷ []

failed_commit_counted_example :
    bulk_best_effort unchanged target uncommitted false (batch ∷ []) begin
    ≡ (record { scopes = 1; written = 2; dropped = 2 }, ok tt)
failed_commit_counted_example =
    failed_commit_counted unchanged target uncommitted batch failure refl refl refl refl refl

abbrev two_rows : List Row
two_rows = row ∷ (("id", null) ∷ ("note", bytes (9 ∷ [])) ∷ []) ∷ []

two_rows-Shares : All (Shares ("id" ∷ "note" ∷ [])) two_rows
unfolding get
two_rows-Shares =
    ((refl, (refl, (refl, tt)), (tt, (tt, tt))), ((refl, (refl, (refl, tt)), (tt, (tt, tt))), tt))

unnest-columnar_example :
    (d : Dict String (List Value)) × (for_batch (some ("id" ∷ "note" ∷ [])) two_rows
      ≡ some (arrays d))
    × AllOfLength (length two_rows) (flattened d)
    × (unnest (length two_rows) d ≡ two_rows)
unnest-columnar_example = unnest-columnar ("id" ∷ "note" ∷ []) two_rows two_rows-Shares
