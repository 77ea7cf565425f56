-- ===== src/Fetch/Examples.antt =====
-- The theorems on the methods of a connection scope applied to a query with two settings, of which the
-- second one has a bad name.
use dbkit_sql.Prelude.{
  refl, ℕ, String, Option, none, some, true, false, List, [], ◌∷◌, map, Result, ok, err,
}
use dbkit_sql.Prelude.Dict.{Dict}
use dbkit_sql.Errors.Classify.{Raised}
use dbkit_sql.Query.{Query, QueryArgument, query, text_clause, read}
use dbkit_sql.Mapping.{MapTo, plain_dict}
use dbkit_sql.Fetch.{
  ConnectionScope, ResultMethods, Miss, no_result_found, multiple_results_found, run_method,
  as_failure, fetch_one, fetch_optional, apply_local_settings,
}
use dbkit_sql.Fetch.Sending.{MethodSends, run_method-MethodSends}
use dbkit_sql.Fetch.Cardinality.{CountsRows, GivesOne, GivesOptional, fetch-GivesOne}

abbrev unchanged : String → String
unchanged s = s

abbrev plain_scope : ConnectionScope
plain_scope = record { is_postgres = true; database_name = "main"; role = "primary" }

abbrev plain_query : Query
plain_query = record {
  identity = 1;
  name = "tuned";
  statement = text_clause "SELECT 1";
  operation = read;
  timeout = none;
  idempotent = true;
  expensive = false;
  sensitive_parameters = [];
  settings = none;
}

abbrev tuned : QueryArgument
tuned =
    query (record plain_query { settings = some (("work_mem", "64MB") ∷ ("bad name", "1") ∷ []) })

abbrev three : Result Raised ℕ
three = ok 3

run_method-MethodSends_example :
    MethodSends true
      (λ n. none)
      tuned
      (run_method unchanged plain_scope (λ n. none) three as_failure (λ n. ok n) tuned).0
run_method-MethodSends_example =
    run_method-MethodSends unchanged plain_scope (λ n. none) three as_failure (λ n. ok n) tuned

-- The methods of a SQLAlchemy result, with the first column of a row.
abbrev first_column : Dict String ℕ → ℕ
first_column [] = 0
first_column ((k, c) ∷ row) = c

abbrev one_row : {A : Type 0} → List A → Result Miss A
one_row [] = err no_result_found
one_row (r ∷ []) = ok r
one_row (r ∷ s ∷ rs) = err multiple_results_found

abbrev one_row_or_none : {A : Type 0} → List A → Result Miss (Option A)
one_row_or_none [] = ok none
one_row_or_none (r ∷ []) = ok (some r)
one_row_or_none (r ∷ s ∷ rs) = err multiple_results_found

abbrev first_of : Result Miss (Dict String ℕ) → Result Miss ℕ
first_of (ok r) = ok (first_column r)
first_of (err e) = err e

abbrev result_methods : ResultMethods (Dict String ℕ) ℕ
result_methods = record {
  one = one_row;
  one_or_none = one_row_or_none;
  scalar_one = λ rs. first_of (one_row rs);
  scalars = map first_column;
}

abbrev dicts : MapTo ℕ ℕ
dicts = plain_dict

abbrev two_rows : List (Dict String ℕ)
two_rows = (("id", 1) ∷ []) ∷ (("id", 2) ∷ []) ∷ []

counts_rows : CountsRows result_methods
counts_rows = record {
  one_of_none = refl;
  one_of_one = λ r. refl;
  one_of_more = λ r s rs. refl;
  optional_of_none = refl;
  optional_of_one = λ r. refl;
  optional_of_more = λ r s rs. refl;
}

fetch-GivesOne_example :
    GivesOne dicts two_rows
      (fetch_one unchanged plain_scope result_methods
        (λ n. none)
        (ok two_rows)
        dicts
        (query plain_query)).1
    × GivesOptional dicts two_rows
        (fetch_optional unchanged plain_scope result_methods
          (λ n. none)
          (ok two_rows)
          dicts
          (query plain_query)).1
unfolding apply_local_settings
fetch-GivesOne_example =
    fetch-GivesOne unchanged plain_scope result_methods counts_rows (λ n. none) dicts plain_query
      two_rows refl
