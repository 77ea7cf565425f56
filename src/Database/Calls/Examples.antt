-- ===== src/Database/Calls/Examples.antt =====
-- The theorem on the calls of the facade applied to an attempt that fails and one that does not.
use dbkit_sql.Prelude.{
  ℕ, String, Option, none, some, true, false, List, [], ◌∷◌, Result, ok, err, pos, map, nat_beq,
  if◌then◌else◌,
}
use dbkit_sql.Prelude.Dict.{Dict}
use dbkit_sql.Errors.{query_timeout, make, no_context}
use dbkit_sql.Errors.Classify.{Raised, database}
use dbkit_sql.Config.Samples.{plain_retry}
use dbkit_sql.Query.{QueryArgument, statement, text_clause}
use dbkit_sql.Retry.{Request}
use dbkit_sql.Mapping.{MapTo, plain_dict}
use dbkit_sql.Fetch.{ConnectionScope, ResultMethods, Miss, no_result_found, multiple_results_found}
use dbkit_sql.Executor.Scope.{Target}
use dbkit_sql.Executor.Resilience.{Circumstances}
use dbkit_sql.Database.Calls.{
  Server, fetch_all, fetch_one, fetch_optional, fetch_value, fetch_values, execute,
}
use dbkit_sql.Database.Calls.Answers.{
  all_blocks, one_blocks, optional_blocks, value_blocks, values_blocks, execute_blocks, Answered,
  calls-Answered,
}

abbrev unchanged : String → String
unchanged s = s

abbrev target : Target
target = record { database = "main"; shard_id = "default"; role = "primary"; query_name = "adhoc" }

abbrev held : ConnectionScope
held = record { is_postgres = true; database_name = "main"; role = "primary" }

abbrev request : Request
request = record {
  query = none;
  retry = plain_retry;
  override = none;
  deadline = none;
  context = no_context;
  began = 0;
}

abbrev frames : ℕ → Circumstances (Unit {0})
frames n = record {
  started_at = n;
  refused_by = none;
  world = record { connects = none; commits = none; rolls_back = none; closes = none };
  body = ok tt;
  reported_at = n;
  emitted_at = n;
  rand = record { num = 1; den = 2 };
  deadline_at = n;
  elapsed_at = n;
}

abbrev one_row : {A : Type 0} → List A → Result Miss A
one_row [] = err no_result_found
one_row (r ∷ []) = ok r
one_row (r ∷ s ∷ rs) = err multiple_results_found

abbrev one_row_or_none : {A : Type 0} → List A → Result Miss (Option A)
one_row_or_none [] = ok none
one_row_or_none (r ∷ []) = ok (some r)
one_row_or_none (r ∷ s ∷ rs) = err multiple_results_found

abbrev size_of : Dict String ℕ → ℕ
size_of [] = 0
size_of ((k, c) ∷ row) = c

abbrev mapped : {A B : Type 0} → (A → B) → Result Miss A → Result Miss B
mapped f (ok a) = ok (f a)
mapped f (err e) = err e

abbrev result_methods : ResultMethods (Dict String ℕ) ℕ
result_methods = record {
  one = one_row;
  one_or_none = one_row_or_none;
  scalar_one = λ rs. mapped size_of (one_row rs);
  scalars = map size_of;
}

abbrev late : Raised
late = database (make query_timeout "late" none no_context)

-- The first attempt times out.
abbrev rows_at : ℕ → Result Raised (List (Dict String ℕ))
rows_at n = if nat_beq n 1 then err late else ok ((("id", 7) ∷ []) ∷ [])

abbrev server : Server ℕ
server = record { settings = λ n s. none; rows = rows_at; row_counts = λ n. ok (pos 1) }

abbrev dicts : MapTo ℕ ℕ
dicts = plain_dict

abbrev select : QueryArgument
select = statement (text_clause "SELECT id FROM users")

calls-Answered_example :
    Answered unchanged target held request frames none false
      (all_blocks unchanged target held request frames none result_methods server dicts select)
      (fetch_all unchanged target held request frames none result_methods server dicts select)
    × Answered unchanged target held request frames none false
        (one_blocks unchanged target held request frames none result_methods server dicts select)
        (fetch_one unchanged target held request frames none result_methods server dicts select)
    × Answered unchanged target held request frames none false
        (optional_blocks unchanged target held request frames none result_methods server dicts
          select)
        (fetch_optional unchanged target held request frames none result_methods server dicts
          select)
    × Answered unchanged target held request frames none false
        (value_blocks unchanged target held request frames none result_methods server select)
        (fetch_value unchanged target held request frames none result_methods server select)
    × Answered unchanged target held request frames none false
        (values_blocks unchanged target held request frames none result_methods server select)
        (fetch_values unchanged target held request frames none result_methods server select)
    × Answered unchanged target held request frames none true
        (execute_blocks unchanged target held request frames none result_methods server select)
        (execute unchanged target held request frames none result_methods server select)
calls-Answered_example =
    calls-Answered unchanged target held request frames none result_methods server dicts select
