-- ===== src/Errors.antt =====
-- _core/errors/base.py: the error hierarchy. `ErrorClass` has a constructor for each class, and the
-- class attributes are functions on it; a subclass that sets no attribute inherits its base's.
-- `original` is kept out: no decision of the program reads it.
pub mod Sqlstate
pub mod Classify
pub mod Hierarchy
use dbkit_sql.Prelude.{
  String, Option, none, some, Bool, true, false, ◌==◌, string_eq, given, or_else, ◌<>◌,
  if◌then◌else◌,
}

pub data ErrorCategory : Type 0 where
  configuration routing availability connection pool timeout lock concurrency : ErrorCategory
  integrity programming permission transaction cancelled result resilience : ErrorCategory
  unsupported : ErrorCategory

-- OVERLOAD_CATEGORIES
unfoldable pub is_overload : ErrorCategory → Bool
is_overload pool = true
is_overload concurrency = true
is_overload resilience = true
is_overload availability = true
is_overload connection = true
is_overload _ = false

-- TIMEOUT_CATEGORIES
unfoldable pub is_timeout : ErrorCategory → Bool
is_timeout timeout = true
is_timeout cancelled = true
is_timeout lock = true
is_timeout _ = false

pub data ErrorClass : Type 0 where
  database_error configuration_error routing_error unavailable connection_error : ErrorClass
  pool_timeout query_timeout lock_timeout deadlock serialization_failure : ErrorClass
  integrity_error unique_violation foreign_key_violation not_null_violation : ErrorClass
  check_violation programming_error syntax_error permission_denied : ErrorClass
  read_only_transaction transaction_error commit_unknown cancelled_error : ErrorClass
  result_error mapping_error circuit_open overloaded unsupported_operation : ErrorClass

-- The base class, `none` for `Exception`.
abbrev pub base : ErrorClass → Option ErrorClass
base database_error = none
base unique_violation = some integrity_error
base foreign_key_violation = some integrity_error
base not_null_violation = some integrity_error
base check_violation = some integrity_error
base syntax_error = some programming_error
base _ = some database_error

-- The attribute `category` of each class.
unfoldable pub category_of : ErrorClass → ErrorCategory
category_of database_error = availability
category_of configuration_error = configuration
category_of routing_error = routing
category_of unavailable = availability
category_of connection_error = connection
category_of pool_timeout = pool
category_of query_timeout = timeout
category_of lock_timeout = lock
category_of deadlock = lock
category_of serialization_failure = concurrency
category_of integrity_error = integrity
category_of unique_violation = integrity
category_of foreign_key_violation = integrity
category_of not_null_violation = integrity
category_of check_violation = integrity
category_of programming_error = programming
category_of syntax_error = programming
category_of permission_denied = permission
category_of read_only_transaction = permission
category_of transaction_error = transaction
category_of commit_unknown = transaction
category_of cancelled_error = cancelled
category_of result_error = result
category_of mapping_error = result
category_of circuit_open = resilience
category_of overloaded = concurrency
category_of unsupported_operation = unsupported

-- The attribute `retryable` of each class.
unfoldable pub retryable_of : ErrorClass → Bool
retryable_of unavailable = true
retryable_of connection_error = true
retryable_of pool_timeout = true
retryable_of lock_timeout = true
retryable_of deadlock = true
retryable_of serialization_failure = true
retryable_of circuit_open = true
retryable_of overloaded = true
retryable_of _ = false

-- The attribute `code` of each class.
unfoldable pub code_of : ErrorClass → String
code_of database_error = "database_error"
code_of configuration_error = "configuration_error"
code_of routing_error = "routing_error"
code_of unavailable = "unavailable"
code_of connection_error = "connection_error"
code_of pool_timeout = "pool_timeout"
code_of query_timeout = "query_timeout"
code_of lock_timeout = "lock_timeout"
code_of deadlock = "deadlock"
code_of serialization_failure = "serialization_failure"
code_of integrity_error = "integrity_error"
code_of unique_violation = "unique_violation"
code_of foreign_key_violation = "foreign_key_violation"
code_of not_null_violation = "not_null_violation"
code_of check_violation = "check_violation"
code_of programming_error = "programming_error"
code_of syntax_error = "syntax_error"
code_of permission_denied = "permission_denied"
code_of read_only_transaction = "read_only_transaction"
code_of transaction_error = "transaction_error"
code_of commit_unknown = "commit_unknown"
code_of cancelled_error = "cancelled"
code_of result_error = "result_error"
code_of mapping_error = "mapping_error"
code_of circuit_open = "circuit_open"
code_of overloaded = "overloaded"
code_of unsupported_operation = "unsupported_operation"

-- The routing and query context of an error.
pub record Context : Type 0 where
  pub database_name : Option String
  pub shard_id : Option String
  pub role : Option String
  pub query_name : Option String

abbrev pub no_context : Context
no_context = record { database_name = none; shard_id = none; role = none; query_name = none }

pub record DatabaseError : Type 0 where
  pub cls : ErrorClass
  pub code : String
  pub category : ErrorCategory
  pub retryable : Bool
  pub connection_invalidated : Bool
  pub transaction_state_unknown : Bool
  pub context : Context
  pub open context use *
  pub sqlstate : Option String
  pub message : String

abbrev is_commit_unknown : ErrorClass → Bool
is_commit_unknown commit_unknown = true
is_commit_unknown _ = false

abbrev labelled : String → Option String → String
labelled label field = if given field then label <> or_else field "" else ""

-- The code, then the fields that are set, between blanks.
abbrev default_message : String → Option String → Option String → Option String → String
default_message code query_name database_name sqlstate =
    code
    <> labelled " query=" query_name
    <> labelled " database=" database_name
    <> labelled " sqlstate=" sqlstate

-- `cls(message, sqlstate=..., **context)`: DatabaseCommitUnknownError sets its two defaults.
unfoldable pub make : ErrorClass → String → Option String → Context → DatabaseError
unfolding category_of retryable_of code_of
make cls message sqlstate context = record {
  cls = cls;
  code = code_of cls;
  category = category_of cls;
  retryable = retryable_of cls;
  connection_invalidated = is_commit_unknown cls;
  transaction_state_unknown = is_commit_unknown cls;
  context = context;
  sqlstate = sqlstate;
  message =
      if message == ""
      then default_message (code_of cls) context.query_name context.database_name sqlstate
      else message;
}

abbrev pub override : Option String → Option String → Option String
override none old = old
override (some new) old = some new

-- Every keyword that is not None replaces the attribute.
unfoldable pub with_context : DatabaseError → Context → DatabaseError
with_context e c = record e {
  context = record {
    database_name = override c.database_name e.database_name;
    shard_id = override c.shard_id e.shard_id;
    role = override c.role e.role;
    query_name = override c.query_name e.query_name;
  };
}
