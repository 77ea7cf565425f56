-- ===== src/Query.antt =====
-- _core/query.py: statements, the Query object and the registry. A SQLAlchemy construct is known by
-- an identifier only; two Query objects are the same object when their `identity` agrees.
pub mod Registry
mod Examples
use dbkit_sql.Prelude.{
  ℕ, String, Option, none, some, Bool, true, false, List, ◌==◌, string_eq, Result, ok, err, ℤ,
  if◌then◌else◌, ◌||◌,
}
use dbkit_sql.Prelude.Dict.{Dict}
use dbkit_sql.Errors.{DatabaseError, programming_error, make, no_context}

pub data Statement : Type 0 where
  text_clause : String → Statement
  core : ℕ → Statement

pub data Operation : Type 0 where
  read write ddl : Operation

pub record Query : Type 0 where
  pub identity : ℕ
  pub name : String
  pub statement : Statement
  pub operation : Operation
  pub timeout : Option ℤ
  pub idempotent : Bool
  pub expensive : Bool
  pub sensitive_parameters : List String
  pub settings : Option (Dict String String)

abbrev is_write_operation : Operation → Bool
is_write_operation read = false
is_write_operation write = true
is_write_operation ddl = true

unfoldable pub is_write : Query → Bool
is_write q = is_write_operation q.operation

unfoldable pub raise_programming : String → DatabaseError
raise_programming message = make programming_error message none no_context

-- `__post_init__`; a bare string is no Statement.
unfoldable pub construct : Query → Result DatabaseError Query
unfolding raise_programming
construct q =
    if q.name == ""
    then err (raise_programming "Query.name must be a non-empty logical name")
    else ok q

-- What a caller may pass as a query.
pub data QueryArgument : Type 0 where
  query : Query → QueryArgument
  statement : Statement → QueryArgument
  bare_string : String → QueryArgument
  unsupported : QueryArgument

unfoldable pub coerce_statement : QueryArgument → Result DatabaseError Statement
unfolding raise_programming
coerce_statement (query q) = ok q.statement
coerce_statement (statement s) = ok s
coerce_statement (bare_string s) =
    err (raise_programming "raw SQL strings must be wrapped with sql(...)")
coerce_statement unsupported = err (raise_programming "unsupported query type")

abbrev pub as_query : QueryArgument → Option Query
as_query (query q) = some q
as_query _ = none
