-- ===== src/Fetch.antt =====
-- _async/connection.py: the primitives that run one statement, and the fetch and execute methods of
-- AsyncConnectionScope. What is sent is kept in a log, and what comes back is given from outside, with the
-- client-side deadline among the errors; on the async side no statement timeout is set. What SQLAlchemy makes
-- of a result (`one`, `one_or_none`, `scalar_one`, `scalars`) is a parameter.
pub mod Sending
pub mod Raising
pub mod Cardinality
mod Examples
use Prim.Native.Char.{code}
use dbkit_sql.Prelude.{
  ℕ, suc, String, Option, none, some, Bool, true, false, List, [], ◌∷◌, ◌++◌, ◌&&◌, ◌||◌, not,
  Result, ok, err, ◌>>=◌, if◌then◌else◌, leb, nat_beq, string_eq, or_else,
}
use dbkit_sql.Prelude.Dict.{Dict}
use dbkit_sql.Prelude.{ℤ}
use dbkit_sql.Errors.{
  DatabaseError, Context, unsupported_operation, programming_error, result_error, make, no_context,
}
use dbkit_sql.Errors.Classify.{Raised, database, classify}
use dbkit_sql.Connection.{classified}
use dbkit_sql.Mapping.{MapTo, Mapped, build_mapper, map_rows}
use dbkit_sql.Query.{Query, Statement, QueryArgument, query, coerce_statement, as_query}

pub data Sent : Type 0 where
  set_config : String → String → Sent
  runs : Statement → Sent

-- What a scope knows of its connection, and where its errors come from.
pub record ConnectionScope : Type 0 where
  pub is_postgres : Bool
  pub database_name : String
  pub role : String

abbrev scope_context : ConnectionScope → String → Context
scope_context s name = record {
  database_name = some s.database_name;
  shard_id = none;
  role = some s.role;
  query_name = some name;
}

-- SQLAlchemy's NoResultFound and MultipleResultsFound.
pub data Miss : Type 0 where
  no_result_found multiple_results_found : Miss

pub record ResultMethods (R C : Type 0) : Type 0 where
  pub one : List R → Result Miss R
  pub one_or_none : List R → Result Miss (Option R)
  pub scalar_one : List R → Result Miss C
  pub scalars : List R → List C

abbrev pub is_letter : ℕ → Bool
is_letter c = (leb b'a' c && leb c b'z') || (leb b'A' c && leb c b'Z') || nat_beq c b'_'

abbrev pub is_word : ℕ → Bool
is_word c = is_letter c || (leb b'0' c && leb c b'9') || nat_beq c b'.'

abbrev pub all_words : List ℕ → Bool
all_words [] = true
all_words (c ∷ cs) = is_word c && all_words cs

-- `_SETTING_NAME_RE.fullmatch(name)`, on the code points
unfoldable pub is_setting_name : List ℕ → Bool
is_setting_name [] = false
is_setting_name (c ∷ cs) = is_letter c && all_words cs

abbrev pub codes : String → List ℕ
codes String.[] = []
codes (String.◌∷◌ c s) = code c ∷ codes s

-- A log, and what was returned or raised.
abbrev pub Logged : Type 0 → Type 0
Logged A = List Sent × Result Raised A

abbrev pub then_log : {A B : Type 0} → Logged A → (List Sent → A → Logged B) → Logged B
then_log (log, ok a) next = next log a
then_log (log, err e) next = (log, err e)

abbrev answered : {A : Type 0} → Option Raised → A → Result Raised A
answered none a = ok a
answered (some e) a = err e

abbrev unsupported_settings : DatabaseError
unsupported_settings =
    make unsupported_operation "Query.settings requires PostgreSQL" none no_context

abbrev bad_setting : DatabaseError
bad_setting = make programming_error "invalid setting name in Query.settings" none no_context

-- The loop of `_apply_local_settings`; `answers` are the outcomes of its statements by their names.
unfoldable pub set_all :
    (String → Option Raised) → Dict String String → List Sent → Logged (Unit {0})
unfolding is_setting_name make
set_all answers [] log = (log, ok tt)
set_all answers ((name, value) ∷ rest) log =
    let sent = log ++ set_config name value ∷ [] in
    if not (is_setting_name (codes name))
    then (log, err (database bad_setting))
    else then_log (sent, answered (answers name) tt) (λ l u. set_all answers rest l)

-- `_apply_local_settings`
unfoldable pub apply_local_settings :
    Bool → (String → Option Raised) → Option (Dict String String) → List Sent → Logged (Unit {0})
unfolding set_all make
apply_local_settings is_postgres answers none log = (log, ok tt)
apply_local_settings is_postgres answers (some []) log = (log, ok tt)
apply_local_settings is_postgres answers (some (s ∷ ss)) log =
    if not is_postgres
    then (log, err (database unsupported_settings))
    else set_all answers (s ∷ ss) log

abbrev settings_of : Option Query → Option (Dict String String)
settings_of none = none
settings_of (some q) = q.settings

abbrev name_of : Option Query → String
name_of none = "adhoc"
name_of (some q) = q.name

-- The block of each method: the settings, then the statement, whose rows come from outside.
unfoldable pub send :
    {R : Type 0}
    → Bool
    → (String → Option Raised)
    → Result Raised R
    → Option Query
    → Statement
    → Logged R
unfolding apply_local_settings
send is_postgres answers rows q statement =
    then_log (apply_local_settings is_postgres answers (settings_of q) [])
      (λ log u. (log ++ runs statement ∷ [], rows))

-- What the block raises: SQLAlchemy's two misses, or another exception.
pub data Failure : Type 0 where
  misses : Miss → Failure
  fails : Raised → Failure

abbrev pub as_failure : {A : Type 0} → Result Raised A → Result Failure A
as_failure (ok a) = ok a
as_failure (err e) = err (fails e)

abbrev pub missed : {A : Type 0} → Result Miss A → Result Failure A
missed (ok a) = ok a
missed (err m) = err (misses m)

abbrev pub picked : {A B : Type 0} → (A → Result Miss B) → Result Raised A → Result Failure B
picked f (ok a) = missed (f a)
picked f (err e) = err (fails e)

abbrev pub raised_by : {A : Type 0} → Result DatabaseError A → Result Raised A
raised_by (ok a) = ok a
raised_by (err e) = err (database e)

module _ (sanitize : String → String) (scope : ConnectionScope) where
  -- The `except` clauses of a method that expects a number of rows; the messages are shortened.
  abbrev pub handled : {A : Type 0} → Context → Result Failure A → Result Raised A
  unfolding make classified
  handled ctx (ok a) = ok a
  handled ctx (err (misses no_result_found)) =
      err (database (make result_error "query returned no rows" none ctx))
  handled ctx (err (misses multiple_results_found)) =
      err (database (make result_error "query returned more than one row" none ctx))
  handled ctx (err (fails e)) = err (classified sanitize ctx e)

  abbrev pub context : Option Query → Context
  context q = scope_context scope (name_of q)

  -- What the methods have in common: coerce the argument, send, take what is wanted of the answer, and
  -- map it outside the `try`.
  unfoldable pub run_method :
      {R A B : Type 0}
      → (String → Option Raised)
      → Result Raised R
      → (Result Raised R → Result Failure A)
      → (A → Result Raised B)
      → QueryArgument
      → Logged B
  unfolding send handled coerce_statement
  run_method answers answer take finish arg = elim (coerce_statement arg) [
    | err e ↦ ([], err (database e))
    | ok statement ↦
        let (log, r) = send scope.is_postgres answers answer (as_query arg) statement in
        (log, handled (context (as_query arg)) (take r) >>= finish)
  ]

  unfoldable pub execute : (String → Option Raised) → Result Raised ℤ → QueryArgument → Logged ℤ
  unfolding run_method
  execute answers row_count = run_method answers row_count as_failure (λ n. ok n)

  module _ {C V : Type 0} (m : ResultMethods (Dict String C) C) (answers : String → Option Raised)
      (rows : Result Raised (List (Dict String C))) where
    unfoldable pub fetch_all : MapTo C V → QueryArgument → Logged (List (Mapped C V))
    unfolding run_method map_rows
    fetch_all map_to = run_method answers rows as_failure (λ rs. raised_by (map_rows rs map_to))

    abbrev pub map_one : MapTo C V → Dict String C → Result Raised (Mapped C V)
    unfolding build_mapper
    map_one map_to row = raised_by (build_mapper map_to >>= λ mapper. mapper row)

    abbrev pub map_option : MapTo C V → Option (Dict String C) → Result Raised (Option (Mapped C V))
    unfolding map_one
    map_option map_to none = ok none
    map_option map_to (some row) = map_one map_to row >>= λ v. ok (some v)

    unfoldable pub fetch_one : MapTo C V → QueryArgument → Logged (Mapped C V)
    unfolding run_method map_one
    fetch_one map_to = run_method answers rows (picked m.one) (map_one map_to)

    unfoldable pub fetch_optional : MapTo C V → QueryArgument → Logged (Option (Mapped C V))
    unfolding run_method map_option
    fetch_optional map_to = run_method answers rows (picked m.one_or_none) (map_option map_to)

  module _ {C : Type 0} (m : ResultMethods (Dict String C) C) (answers : String → Option Raised)
      (rows : Result Raised (List (Dict String C))) where
    unfoldable pub fetch_value : QueryArgument → Logged C
    unfolding run_method
    fetch_value = run_method answers rows (picked m.scalar_one) (λ c. ok c)

    unfoldable pub fetch_values : QueryArgument → Logged (List C)
    unfolding run_method
    fetch_values = run_method answers rows as_failure (λ rs. ok (m.scalars rs))
