-- ===== src/Transaction/Examples.antt =====
-- The theorems on transactions applied to worlds in which one call goes wrong.
use dbkit_sql.Prelude.{◌≡◌, refl, String, none, some, true, false, err, [], ◌∷◌}
use dbkit_sql.Errors.{DatabaseError}
use dbkit_sql.Errors.Classify.{
  RawError, DbapiError, absent, missing, database, raw, operational, not_sqlalchemy,
  is_connection_error,
}
use dbkit_sql.Policies.{should_retry}
use dbkit_sql.Config.Samples.{plain_retry}
use dbkit_sql.Connection.{
  Connection, connect, begin, set_statement_timeout, rollback, closes, is_cancellation,
}
use dbkit_sql.Transaction.{Settings, World, open_transaction, enter, exit, transact, no_connection}
use dbkit_sql.Transaction.Release.{transact-closes_once, enter_leaks}
use dbkit_sql.Connection.Keeps.{logged}
use dbkit_sql.Transaction.Outcomes.{ReleaseIsQuiet, commit_unknown_not_retried}

abbrev settings : Settings
settings = record {
  is_postgres = true;
  isolation = none;
  read_only = false;
  deferrable = false;
  timeout = some 5000;
  lock_timeout = none;
  database = "main";
  shard_id = "default";
  role = "primary";
  query_name = "transaction";
}

abbrev quiet : World
quiet = record {
  connects = none;
  takes_options = none;
  begins = none;
  sets_statement_timeout = none;
  sets_lock_timeout = none;
  commits = none;
  rolls_back = none;
  rollback_interrupted = none;
  invalidates = none;
  closes = none;
  release_interrupted = none;
}

abbrev no_driver_error : DbapiError
no_driver_error = record { sqlstate = absent; pgcode = absent; diagnostics = missing }

abbrev broken : RawError
broken = record {
  is_timeout = false;
  is_os_error = false;
  is_cancellation = false;
  sqlalchemy = operational;
  own = no_driver_error;
  orig = none;
  connection_invalidated = true;
  message = "server closed the connection";
}

abbrev cancelled : RawError
cancelled = record broken {
  is_cancellation = true;
  sqlalchemy = not_sqlalchemy;
  connection_invalidated = false;
}

abbrev unchanged : String → String
unchanged s = s

abbrev running : Connection
running = record { connected = true; in_transaction = true; log = [] }

quiet_release : (w : World) → w.release_interrupted ≡ none → w.closes ≡ none → ReleaseIsQuiet w
quiet_release w r c = record { uninterrupted = r; closing = λ x e. cc (c, e) }

transact-closes_once_example :
    closes (transact unchanged settings (record quiet { commits = some (raw broken) }) none).0.log
    ≡ 1
transact-closes_once_example =
    transact-closes_once unchanged settings (record quiet { commits = some (raw broken) }) none refl
      (λ e o x p. cc p)

-- SET LOCAL fails, and a cancellation arrives in the rollback.
abbrev leaking : World
leaking = record quiet {
  sets_statement_timeout = some (raw broken);
  rolls_back = some (raw cancelled);
}

abbrev failed_open : Connection
failed_open = record {
  connected = true;
  in_transaction = true;
  log = connect ∷ begin ∷ set_statement_timeout ∷ [];
}

enter_leaks_example :
    enter unchanged settings leaking no_connection
    ≡ (logged rollback failed_open, err (raw cancelled))
unfolding open_transaction no_connection is_cancellation
enter_leaks_example =
    enter_leaks unchanged settings leaking (raw broken) (raw cancelled) failed_open refl refl refl
      refl

commit_unknown_not_retried_example :
    (e : DatabaseError) × ((exit unchanged settings
        (record quiet { commits = some (raw broken) })
        none
        running).1
      ≡ err (database e))
    × (e.transaction_state_unknown ≡ true)
    × (should_retry e none plain_retry 1 (some true) ≡ false)
unfolding is_connection_error
commit_unknown_not_retried_example =
    commit_unknown_not_retried unchanged settings (record quiet { commits = some (raw broken) })
      running (raw broken) none plain_retry 1 (some true) refl
      (quiet_release (record quiet { commits = some (raw broken) }) refl refl) refl refl
