-- ===== src/Executor/Scope.antt =====
-- `acquire` and `scope` of _async/executor.py: one short-lived connection around a block. The outcome of
-- every call on the connection comes from outside; metrics, spans and logs are left out.
use dbkit_sql.Prelude.{String, Option, none, some, Bool, true, false, ok, err, if◌then◌else◌}
use dbkit_sql.Errors.{Context, DatabaseError, commit_unknown, make}
use dbkit_sql.Errors.Classify.{Raised, database, classify, is_connection_error}
use dbkit_sql.Connection.{
  Connection, Awaited, connect, commit, rollback, close, call, and_then, on_error, suppress,
  finally, is_cancellation,
}

pub record Target : Type 0 where
  pub database : String
  pub shard_id : String
  pub role : String
  pub query_name : String

pub record World : Type 0 where
  pub connects : Option Raised
  pub commits : Option Raised
  pub rolls_back : Option Raised
  pub closes : Option Raised

module _ (sanitize : String → String) (t : Target) where
  abbrev pub commit_context : Context
  commit_context = record {
    database_name = some t.database;
    shard_id = none;
    role = some t.role;
    query_name = some t.query_name;
  }

  abbrev acquire_context : Context
  acquire_context = record commit_context { role = none }

  abbrev unknown_message : String
  unknown_message = "connection failed during COMMIT; transaction outcome is unknown"

  unfoldable pub unknown_error : DatabaseError
  unknown_error =
      make commit_unknown unknown_message none
        (record commit_context { shard_id = some t.shard_id })

  abbrev pub connected : Connection → Awaited
  connected c = (record c { connected = true }, ok tt)

  -- `acquire`: `except Exception`, so a cancellation is not classified.
  unfoldable pub acquire : World → Connection → Awaited
  unfolding call is_cancellation
  acquire w c =
      and_then
        (on_error (call connect w.connects c) (λ e c'. (
          c',
          err (if is_cancellation e then e else database (classify sanitize e acquire_context)),
        )))
        connected

  -- The auto-commit after a block that ended well.
  unfoldable pub auto_commit : World → Connection → Awaited
  unfolding call suppress is_connection_error unknown_error
  auto_commit w c = on_error (call commit w.commits c) (λ e c'.
      if is_connection_error e
      then (c', err (database unknown_error))
      else and_then (suppress (call rollback w.rolls_back c'))
          (λ c''. (c'', err (database (classify sanitize e commit_context)))))

  unfoldable pub end_block : World → Bool → Option Raised → Connection → Awaited
  unfolding call suppress
  end_block w commits (some e) c =
      and_then (suppress (call rollback w.rolls_back c)) (λ c'. (c', err e))
  end_block w true none c = auto_commit w c
  end_block w false none c = (c, ok tt)

  -- `scope(commit=...)` around a block that ends with `exc` or none
  unfoldable pub scope : World → Bool → Option Raised → Connection → Awaited
  unfolding acquire auto_commit end_block
  scope w commits exc c =
      and_then (acquire w c)
        (λ c'. finally (end_block w commits exc c') (λ c''. suppress (call close w.closes c'')))
