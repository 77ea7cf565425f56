-- ===== src/Integrations.antt =====
-- The helpers for message-driven programs in src/dbkit/integrations. `transaction` is what they use of the
-- database: a block on a transaction of its own, which PostgreSQL applies wholly or not at all. Where the
-- connection is lost during COMMIT, the transaction may have been applied or not, and the error is
-- DatabaseCommitUnknownError.
pub mod BatchCollector
pub mod Inbox
pub mod Outbox
pub mod Problem
mod Examples
use dbkit_sql.Prelude.{Option, none, some, Bool, true, false, Result, ok, err}
use dbkit_sql.Errors.{DatabaseError, commit_unknown, make, no_context}
use dbkit_sql.Errors.Classify.{Raised, database}

-- How the COMMIT ends.
pub data Ending : Type 0 where
  committed : Ending
  rejected : Raised → Ending
  applied_with : Raised → Ending  -- applied, though it ended with this error, such as a cancellation
  lost : Bool → Ending  -- whether it was applied

abbrev pub unknown_outcome : DatabaseError
unfolding make
unknown_outcome = make commit_unknown "transaction outcome is unknown" none no_context

module _ {S V : Type 0} where
  abbrev pub conclude : Ending → S → S → V → S × Result Raised V
  conclude committed old new v = (new, ok v)
  conclude (rejected e) old new v = (old, err e)
  conclude (applied_with e) old new v = (new, err e)
  conclude (lost true) old new v = (new, err (database unknown_outcome))
  conclude (lost false) old new v = (old, err (database unknown_outcome))

  abbrev pub after_block : Ending → S → S × Result Raised V → S × Result Raised V
  after_block end old (new, ok v) = conclude end old new v
  after_block end old (new, err e) = (old, err e)

  -- `async with db.transaction(...) as tx: block`
  unfoldable pub transaction :
      Option Raised → Ending → (S → S × Result Raised V) → S → S × Result Raised V
  transaction (some e) end block s = (s, err e)
  transaction none end block s = after_block end s (block s)
