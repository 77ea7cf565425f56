-- ===== src/Transaction.antt =====
-- `_AsyncTransactionManager` of _async/transaction.py. `World` holds the outcome of every call that one
-- transaction can make of the connection, and the cancellations that reach it while it is shielded;
-- `sanitize` is `sanitize_message` of _core/errors/redaction.py. Metrics, logs and spans are left out,
-- but the outcome that they report is kept.
pub mod Release
pub mod Outcomes
mod Examples
use dbkit_sql.Prelude.{
  ℕ, String, Option, none, some, Bool, true, false, List, [], ◌∷◌, Result, ok, err, ltb, given,
  is_some, if◌then◌else◌, ◌||◌, ◌&&◌,
}
use dbkit_sql.Errors.{DatabaseError, Context, commit_unknown, make}
use dbkit_sql.Errors.Classify.{Raised, database, raw, classify, is_connection_error}
use dbkit_sql.Connection.{
  Connection, Awaited, Effect, connect, take_options, begin, set_statement_timeout,
  set_lock_timeout, commit, rollback, invalidate, close, call, and_then, on_error, suppress,
  shielded, finally, is_cancellation,
}

pub record Settings : Type 0 where
  pub is_postgres : Bool
  pub isolation : Option String
  pub read_only : Bool
  pub deferrable : Bool
  pub timeout : Option ℕ
  pub lock_timeout : Option ℕ
  pub database : String
  pub shard_id : String
  pub role : String
  pub query_name : String

pub record World : Type 0 where
  pub connects : Option Raised
  pub takes_options : Option Raised
  pub begins : Option Raised
  pub sets_statement_timeout : Option Raised
  pub sets_lock_timeout : Option Raised
  pub commits : Option Raised
  pub rolls_back : Option Raised
  pub rollback_interrupted : Option Raised
  pub invalidates : Option Raised
  pub closes : Option Raised
  pub release_interrupted : Option Raised

-- `is not None and > 0`
abbrev positive : Option ℕ → Bool
positive none = false
positive (some n) = ltb 0 n

-- Whether `_execution_options` gives any.
unfoldable pub has_options : Settings → Bool
has_options s = given s.isolation || (s.is_postgres && (s.read_only || s.deferrable))

abbrev call_if : Bool → Effect → Option Raised → Connection → Awaited
call_if true f o c = call f o c
call_if false f o c = (c, ok tt)

-- `_apply_settings`
unfoldable pub apply_settings : Settings → World → Connection → Awaited
unfolding call
apply_settings s w c =
    if s.is_postgres
    then and_then (call_if (positive s.timeout) set_statement_timeout w.sets_statement_timeout c)
        (call_if (positive s.lock_timeout) set_lock_timeout w.sets_lock_timeout)
    else (c, ok tt)

abbrev forget : Connection → Awaited
forget c = (record c { connected = false; in_transaction = false }, ok tt)

-- `_release`
unfoldable pub release : World → Connection → Awaited
unfolding call suppress shielded
release w c =
    if c.connected
    then and_then (shielded w.release_interrupted (suppress (call close w.closes c))) forget
    else (c, ok tt)

-- `_cleanup_on_enter_failure`: this rollback is not shielded
unfoldable pub cleanup_on_enter_failure : World → Connection → Awaited
unfolding call suppress release
cleanup_on_enter_failure w c =
    and_then (if c.in_transaction then suppress (call rollback w.rolls_back c) else (c, ok tt))
      (release w)

-- `_rollback`
unfoldable pub roll_back : World → Bool → Connection → Awaited
unfolding call suppress shielded
roll_back w cancelled c =
    if c.in_transaction
    then and_then
        (shielded w.rollback_interrupted (
          on_error (call rollback w.rolls_back c) (λ e c'.
            if is_cancellation e
            then (c', err e)
            else suppress (call invalidate w.invalidates c'))))
        (λ c'. if cancelled then suppress (call invalidate w.invalidates c') else (c', ok tt))
    else (c, ok tt)

unfoldable pub no_connection : Connection
no_connection = record { connected = false; in_transaction = false; log = [] }

module _ (sanitize : String → String) (s : Settings) where
  -- The context that the two `classify` calls pass: no shard.
  abbrev error_context : Context
  error_context = record {
    database_name = some s.database;
    shard_id = none;
    role = some s.role;
    query_name = some s.query_name;
  }

  abbrev unknown_message : String
  unknown_message = "connection failed during COMMIT; transaction outcome is unknown"

  unfoldable pub unknown_error : DatabaseError
  unknown_error =
      make commit_unknown unknown_message none (record error_context { shard_id = some s.shard_id })

  abbrev connected : Connection → Awaited
  connected c = (record c { connected = true }, ok tt)

  abbrev begun : Connection → Awaited
  begun c = (record c { in_transaction = true }, ok tt)

  -- The `try` block of `__aenter__`.
  unfoldable pub open_transaction : World → Connection → Awaited
  unfolding call apply_settings has_options
  open_transaction w c =
      and_then
        (and_then
          (and_then
            (and_then (and_then (call connect w.connects c) connected)
              (call_if (has_options s) take_options w.takes_options))
            (call begin w.begins))
          begun)
        (apply_settings s w)

  abbrev raise_classified : Raised → Connection → Awaited
  raise_classified e c =
      (c, err (if is_cancellation e then e else database (classify sanitize e error_context)))

  -- `__aenter__`
  unfoldable pub enter : World → Connection → Awaited
  unfolding open_transaction cleanup_on_enter_failure is_cancellation
  enter w c =
      on_error (open_transaction w c)
        (λ e c'. and_then (cleanup_on_enter_failure w c') (raise_classified e))

  -- `_commit`
  unfoldable pub commit_transaction : World → Connection → Awaited
  unfolding call suppress is_connection_error unknown_error
  commit_transaction w c = on_error (call commit w.commits c) (λ e c'.
      if is_connection_error e
      then (c', err (database unknown_error))
      else and_then (suppress (call rollback w.rolls_back c'))
          (λ c''. (c'', err (database (classify sanitize e error_context)))))

  abbrev pub end_body : World → Option Raised → Connection → Awaited
  end_body w none c = commit_transaction w c
  end_body w (some e) c = and_then (roll_back w (is_cancellation e) c) (λ c'. (c', err e))

  -- `__aexit__`, with the exception of the body; that one goes on when `__aexit__` returns False.
  unfoldable pub exit : World → Option Raised → Connection → Awaited
  unfolding commit_transaction roll_back release is_cancellation
  exit w exc c = finally (end_body w exc c) (release w)

  -- A whole `async with db.transaction(...)`, whose body ends with `exc` or none.
  unfoldable pub transact : World → Option Raised → Awaited
  unfolding enter exit no_connection
  transact w exc = and_then (enter w no_connection) (exit w exc)
