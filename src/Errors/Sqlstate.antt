-- ===== src/Errors/Sqlstate.antt =====
-- _core/errors/sqlstate.py: SQLSTATE codes to error classes, exact codes before code classes.
use dbkit_sql.Prelude.{String, Option, none, some, [], ◌∷◌, string_eq, given, if◌then◌else◌}
use dbkit_sql.Prelude.Dict.{Dict, get}
use dbkit_sql.Errors.{
  ErrorClass, unavailable, connection_error, query_timeout, lock_timeout, deadlock,
  serialization_failure, integrity_error, unique_violation, foreign_key_violation,
  not_null_violation, check_violation, programming_error, syntax_error, permission_denied,
  read_only_transaction, transaction_error, commit_unknown,
}

-- SQLSTATE_MAP
unfoldable pub sqlstate_map : Dict String ErrorClass
sqlstate_map =
    ("23505", unique_violation)
    ∷ ("23503", foreign_key_violation)
    ∷ ("23502", not_null_violation)
    ∷ ("23514", check_violation)
    ∷ ("23000", integrity_error)
    ∷ ("40001", serialization_failure)
    ∷ ("40P01", deadlock)
    ∷ ("40000", transaction_error)
    ∷ ("40002", integrity_error)
    ∷ ("40003", commit_unknown)
    ∷ ("55P03", lock_timeout)
    ∷ ("57014", query_timeout)
    ∷ ("57P01", connection_error)
    ∷ ("57P02", connection_error)
    ∷ ("57P03", unavailable)
    ∷ ("53300", unavailable)
    ∷ ("53400", unavailable)
    ∷ ("25006", read_only_transaction)
    ∷ ("25P02", transaction_error)
    ∷ ("08000", connection_error)
    ∷ ("08003", connection_error)
    ∷ ("08006", connection_error)
    ∷ ("08001", connection_error)
    ∷ ("08004", connection_error)
    ∷ ("42601", syntax_error)
    ∷ ("42501", permission_denied)
    ∷ ("42P01", programming_error)
    ∷ ("42703", programming_error)
    ∷ ("42883", programming_error)
    ∷ ("22P02", programming_error)
    ∷ []

-- SQLSTATE_CLASS_MAP
unfoldable pub sqlstate_class_map : Dict String ErrorClass
sqlstate_class_map =
    ("08", connection_error)
    ∷ ("23", integrity_error)
    ∷ ("42", programming_error)
    ∷ ("40", transaction_error)
    ∷ ("53", unavailable)
    ∷ ("22", programming_error)
    ∷ []

-- sqlstate[:2]
unfoldable pub first_two : String → String
first_two (String.◌∷◌ a (String.◌∷◌ b rest)) = String.◌∷◌ a (String.◌∷◌ b String.[])
first_two s = s

or_class : Option ErrorClass → Option ErrorClass → Option ErrorClass
or_class (some c) other = some c
or_class none other = other

unfoldable pub error_class_for_sqlstate : Option String → Option ErrorClass
unfolding or_class
error_class_for_sqlstate none = none
error_class_for_sqlstate (some s) =
    if given (some s)
    then or_class (get sqlstate_map s) (get sqlstate_class_map (first_two s))
    else none
