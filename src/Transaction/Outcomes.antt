-- ===== src/Transaction/Outcomes.antt =====
-- What leaving a transaction raises, and what that tells of the commit.
use dbkit_sql.Prelude.{
  ℕ, String, Option, none, some, Bool, true, false, ◌≡◌, refl, ◌∙◌, ok, err, arith, ◌↔◌,
  if◌then◌else◌,
}
use dbkit_sql.Errors.{DatabaseError, database_error, make}
use dbkit_sql.Errors.Classify.{
  Raised, RawError, database, raw, classify, class_of, sqlstate_of, from_sqlalchemy_type,
  not_sqlalchemy, is_connection_error,
}
use dbkit_sql.Errors.Sqlstate.{error_class_for_sqlstate}
use dbkit_sql.Query.{Query}
use dbkit_sql.Policies.{RetryConfig, should_retry}
use dbkit_sql.Connection.{
  Connection, Awaited, close, rollback, call, and_then, suppress, shielded, finally, settle,
  is_cancellation,
}
use dbkit_sql.Transaction.{
  Settings, World, release, forget, unknown_error, error_context, commit_transaction, end_body,
  exit,
}
use dbkit_sql.Transaction.Release.{end_body-Keeps}
use dbkit_sql.Connection.Keeps.{NotCancelled, suppressed}

-- Nothing interrupts the return of the connection to its pool.
pub record ReleaseIsQuiet (w : World) : Type 0 where
  pub uninterrupted : w.release_interrupted ≡ none
  pub closing : NotCancelled w.closes

quiet_release :
    (b : Bool) (i o : Option Raised) (c : Connection)
    → b ≡ true
    → i ≡ none
    → NotCancelled o
    → (if b then and_then (shielded i (suppress (call close o c))) forget else (c, ok tt)).1 ≡ ok tt
unfolding shielded suppress call
quiet_release true none none c h e n = refl
quiet_release true none (some x) c h e n = rw (n x refl) refl
quiet_release true (some x) o c h e n = cc e
quiet_release false i o c h e n = refl

release-ok :
    (w : World) (c : Connection) → c.connected ≡ true → ReleaseIsQuiet w → (release w c).1 ≡ ok tt
unfolding release
release-ok w c h q =
    quiet_release c.connected w.release_interrupted w.closes c h q.uninterrupted q.closing

finally-result :
    (w : World) (a : Awaited)
    → a.0.connected ≡ true
    → ReleaseIsQuiet w
    → (finally a (release w)).1 ≡ a.1
finally-result w (c, r) h q = settled (release w c) (release-ok w c h q)
  where
    settled : (a : Awaited) → a.1 ≡ ok tt → (settle r a).1 ≡ r
    settled (c, ok tt) e = refl
    settled (c, err x) e = cc e

module _ (sanitize : String → String) (s : Settings) (w : World) (c : Connection) where
  exit-result :
      (exc : Option Raised)
      → c.connected ≡ true
      → ReleaseIsQuiet w
      → (exit sanitize s w exc c).1 ≡ (end_body sanitize s w exc c).1
  unfolding exit
  exit-result exc h q =
      let k = end_body-Keeps sanitize s w exc c in
      finally-result w (end_body sanitize s w exc c) (k.held ∙ h) q

  -- A body that ends without an error leaves the transaction without one exactly when COMMIT succeeded.
  pub clean_exit_iff :
      c.connected ≡ true
      → ReleaseIsQuiet w
      → ((exit sanitize s w none c).1 ≡ ok tt) ↔ (w.commits ≡ none)
  clean_exit_iff h q = rw (exit-result none h q) committed
    where
      committed : ((commit_transaction sanitize s w c).1 ≡ ok tt) ↔ (w.commits ≡ none)
      committed = unfold commit_transaction call suppress in ground arith

  commit-unknown :
      (x : Raised)
      → w.commits ≡ some x
      → is_connection_error x ≡ true
      → (commit_transaction sanitize s w c).1 ≡ err (database (unknown_error sanitize s))
  unfolding commit_transaction call
  commit-unknown x e k = rw (e, k) refl

  -- When the connection breaks during the COMMIT of a body that ended well, and nothing interrupts the
  -- return of the connection, the caller gets an error that marks the outcome as unknown, and no retry
  -- policy repeats an operation that ends with it, however the query, the policy and the attempt look.
  pub commit_unknown_not_retried :
      (x : Raised) (query : Option Query) (config : RetryConfig) (attempt : ℕ)
      (override : Option Bool)
      → c.connected ≡ true
      → ReleaseIsQuiet w
      → w.commits ≡ some x
      → is_connection_error x ≡ true
      → (e : DatabaseError) × ((exit sanitize s w none c).1 ≡ err (database e))
        × (e.transaction_state_unknown ≡ true)
        × (should_retry e query config attempt override ≡ false)
  unfolding unknown_error make should_retry
  commit_unknown_not_retried x query config attempt override h q e k =
      (unknown_error sanitize s, exit-result none h q ∙ commit-unknown x e k, refl, ground arith)

  classified :
      (x : Raised)
      → w.commits ≡ some x
      → is_connection_error x ≡ false
      → NotCancelled w.rolls_back
      → (commit_transaction sanitize s w c).1
        ≡ err (database (classify sanitize x (error_context sanitize s)))
  unfolding commit_transaction call
  classified x e k n = rw (e, k) (rw (suppressed rollback w.rolls_back _ n) refl)

  -- A cancellation without SQLSTATE that arrives during COMMIT does not reach the caller, where neither
  -- the rollback after it nor the return of the connection is cancelled: it becomes an error of the
  -- base class that claims to know the outcome of the transaction.
  pub cancelled_commit_swallowed :
      (r : RawError)
      → c.connected ≡ true
      → ReleaseIsQuiet w
      → w.commits ≡ some (raw r)
      → r.is_cancellation ≡ true
      → r.sqlalchemy ≡ not_sqlalchemy
      → r.is_os_error ≡ false
      → r.is_timeout ≡ false
      → sqlstate_of r ≡ none
      → NotCancelled w.rolls_back
      → (e : DatabaseError) × ((exit sanitize s w none c).1 ≡ err (database e))
        × (is_cancellation (database e) ≡ false)
        × (e.cls ≡ database_error)
        × (e.transaction_state_unknown ≡ false)
  cancelled_commit_swallowed r h q e k na os nt ns n = (
    classify sanitize (raw r) (error_context sanitize s),
    exit-result none h q ∙ classified (raw r) e intact n,
    unfold is_cancellation in refl,
    named,
    unfold classify make in ground (arith, plain, nt),
  )
    where
      plain : class_of r ≡ database_error
      plain =
          unfold class_of from_sqlalchemy_type error_class_for_sqlstate in
          ground (arith, na, os, ns)

      intact : is_connection_error (raw r) ≡ false
      intact = unfold is_connection_error in ground (arith, na, os)

      named : (classify sanitize (raw r) (error_context sanitize s)).cls ≡ database_error
      named = unfold classify make in ground (arith, plain, nt)
