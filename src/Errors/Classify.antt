-- ===== src/Errors/Classify.antt =====
-- _core/errors/classifier.py. An exception that is no DatabaseError is seen through what the
-- classifier asks of it: `isinstance` answers, attributes, and its text. `sanitize` stands for
-- `sanitize_message` of redaction.py, which only rewrites the text.
use Prim.Native.String.{count}
use dbkit_sql.Prelude.{
  String, Option, none, some, Bool, true, false, ◌==◌, nat_eq, string_eq, ◌||◌, if◌then◌else◌,
}
use dbkit_sql.Errors.{
  ErrorClass, database_error, connection_error, pool_timeout, query_timeout, integrity_error,
  programming_error, Context, DatabaseError, code_of, make, with_context,
}
use dbkit_sql.Errors.Sqlstate.{error_class_for_sqlstate}

-- `getattr(exc, name, None)` where the code asks for a string.
pub data Attribute : Type 0 where
  absent other : Attribute
  text : String → Attribute

-- The attribute `diag`: missing, None, or an object with a `sqlstate`.
pub data Diagnostics : Type 0 where
  missing empty : Diagnostics
  diag : Attribute → Diagnostics

-- A DBAPI exception as `_extract_sqlstate` and `_looks_like_dbapi` see it.
pub record DbapiError : Type 0 where
  pub sqlstate : Attribute
  pub pgcode : Attribute
  pub diagnostics : Diagnostics

-- The SQLAlchemy class of an exception, as far as `_from_sqlalchemy_type` tells them apart.
pub data SqlalchemyClass : Type 0 where
  integrity programming operational disconnection checkout_timeout other_dbapi : SqlalchemyClass
  not_sqlalchemy : SqlalchemyClass

pub record RawError : Type 0 where
  pub is_timeout : Bool
  pub is_os_error : Bool
  pub is_cancellation : Bool
  pub sqlalchemy : SqlalchemyClass
  pub own : DbapiError
  pub orig : Option DbapiError
  pub connection_invalidated : Bool
  pub message : String

pub data Raised : Type 0 where
  database : DatabaseError → Raised
  raw : RawError → Raised

abbrev five_chars : Attribute → Option String
five_chars (text s) = if count s == 5 then some s else none
five_chars _ = none

abbrev or_text : Option String → Option String → Option String
or_text (some s) t = some s
or_text none t = t

abbrev diag_sqlstate : Diagnostics → Option String
diag_sqlstate (diag a) = five_chars a
diag_sqlstate _ = none

-- `_extract_sqlstate`
unfoldable pub extract_sqlstate : DbapiError → Option String
extract_sqlstate e =
    or_text (five_chars e.sqlstate) (or_text (five_chars e.pgcode) (diag_sqlstate e.diagnostics))

abbrev has_attribute : Attribute → Bool
has_attribute absent = false
has_attribute _ = true

abbrev has_diagnostics : Diagnostics → Bool
has_diagnostics missing = false
has_diagnostics _ = true

-- `_looks_like_dbapi`
unfoldable pub looks_like_dbapi : DbapiError → Bool
looks_like_dbapi e =
    has_attribute e.sqlstate || has_attribute e.pgcode || has_diagnostics e.diagnostics

-- `_from_sqlalchemy_type`
unfoldable pub from_sqlalchemy_type : SqlalchemyClass → Option ErrorClass
from_sqlalchemy_type integrity = some integrity_error
from_sqlalchemy_type programming = some programming_error
from_sqlalchemy_type operational = some connection_error
from_sqlalchemy_type disconnection = some connection_error
from_sqlalchemy_type checkout_timeout = some pool_timeout
from_sqlalchemy_type other_dbapi = some database_error
from_sqlalchemy_type not_sqlalchemy = none

-- `orig`, or the exception itself if it looks like a DBAPI exception
dbapi_of : RawError → Option DbapiError
unfolding looks_like_dbapi
dbapi_of r = elim r.orig [
  | some o ↦ some o
  | none ↦ if looks_like_dbapi r.own then some r.own else none
]

abbrev extract_from : Option DbapiError → Option String
unfolding extract_sqlstate
extract_from none = none
extract_from (some o) = extract_sqlstate o

-- The SQLSTATE that `classify` works with.
unfoldable pub sqlstate_of : RawError → Option String
unfolding dbapi_of extract_from
sqlstate_of r = or_text (extract_from (dbapi_of r)) (extract_sqlstate r.own)

abbrev first_class : Option ErrorClass → Option ErrorClass → Option ErrorClass
first_class (some c) d = some c
first_class none d = d

abbrev class_or : Option ErrorClass → ErrorClass → ErrorClass
class_or (some c) d = c
class_or none d = d

-- The class chosen: by SQLSTATE, by SQLAlchemy class, by OS error, or the base class.
unfoldable pub class_of : RawError → ErrorClass
unfolding sqlstate_of from_sqlalchemy_type
class_of r =
    class_or
      (first_class (error_class_for_sqlstate (sqlstate_of r)) (from_sqlalchemy_type r.sqlalchemy))
      (if r.is_os_error then connection_error else database_error)

abbrev deadline_message : String
deadline_message = "operation exceeded its client-side deadline"

abbrev mark_invalidated : Bool → DatabaseError → DatabaseError
mark_invalidated true e = record e { connection_invalidated = true }
mark_invalidated false e = e

unfoldable pub classify : (String → String) → Raised → Context → DatabaseError
unfolding class_of
classify sanitize (database e) ctx = with_context e ctx
classify sanitize (raw r) ctx =
    if r.is_timeout
    then make query_timeout deadline_message none ctx
    else mark_invalidated r.connection_invalidated
        (make (class_of r) (text_or_code (sanitize r.message)) (sqlstate_of r) ctx)
  where
    -- `sanitize_message(str(exc)) or cls.code`
    text_or_code : String → String
    text_or_code s = if s == "" then code_of (class_of r) else s

abbrev is_dbapi : SqlalchemyClass → Bool
is_dbapi integrity = true
is_dbapi programming = true
is_dbapi operational = true
is_dbapi other_dbapi = true
is_dbapi _ = false

-- Whether the connection itself is broken.
unfoldable pub is_connection_error : Raised → Bool
is_connection_error (database e) = false
is_connection_error (raw r) =
    if is_dbapi r.sqlalchemy then r.connection_invalidated else r.is_os_error
