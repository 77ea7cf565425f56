-- ===== src/Bulk/Modes.antt =====
-- `_bulk_best_effort` of _async/database.py: every batch in a scope of its own that commits, and in the mode
-- split_on_failure the rows of a failed batch one by one. `Attempt` is what the n-th scope meets: the
-- outcomes of the calls on its connection, and the statement with the row count that the driver reports
-- (0 where it reports none, or one that is not positive).
pub mod Scopes
pub mod Accounts
use dbkit_sql.Prelude.{
  ℕ, zero, suc, ◌+◌, String, Option, none, some, Bool, true, false, List, [], ◌∷◌, length, ltb,
  Result, ok, err, if◌then◌else◌,
}
use dbkit_sql.Errors.Classify.{Raised}
use dbkit_sql.Connection.{is_cancellation}
use dbkit_sql.Transaction.{no_connection}
use dbkit_sql.Executor.Scope.{Target, World, scope}

pub record Attempt : Type 0 where
  pub world : World
  pub statement : Result Raised ℕ

-- What the call has done so far: scopes opened, rows counted as written, rows reported as dropped.
pub record Progress : Type 0 where
  pub scopes : ℕ
  pub written : ℕ
  pub dropped : ℕ

-- `cursor.rowcount if cursor.rowcount and cursor.rowcount > 0 else len(batch)`
unfoldable pub counted : ℕ → ℕ → ℕ
counted reported rows = if ltb 0 reported then reported else rows

abbrev pub body_error : Result Raised ℕ → Option Raised
body_error (ok n) = none
body_error (err e) = some e

abbrev count_of : (ℕ → ℕ) → Option Raised → Result Raised ℕ → ℕ
count_of count none (ok reported) = count reported
count_of count none (err e) = 0
count_of count (some e) statement = 0

module _ (sanitize : String → String) (t : Target) where
  -- What a scope adds to `written`: before it commits.
  unfoldable pub adds : (ℕ → ℕ) → Attempt → ℕ
  adds count a = count_of count a.world.connects a.statement

  unfoldable pub ends : Attempt → Result Raised (Unit {0})
  unfolding scope no_connection
  ends a = (scope sanitize t a.world true (body_error a.statement) no_connection).1

  abbrev pub add : ℕ → Progress → Progress
  add n p = record p { scopes = suc p.scopes; written = p.written + n }

  abbrev pub drop_rows : ℕ → Progress → Progress
  drop_rows n p = record p { dropped = p.dropped + n }

  -- `except Exception`: a cancellation ends the whole call.
  abbrev pub handle :
      Result Raised (Unit {0})
      → Progress
      → (Progress → Progress × Result Raised (Unit {0}))
      → (Progress → Progress × Result Raised (Unit {0}))
      → Progress × Result Raised (Unit {0})
  handle (ok u) p failed rest = rest p
  handle (err e) p failed rest = if is_cancellation e then (p, err e) else failed p

  abbrev pub and_next :
      Progress × Result Raised (Unit {0})
      → (Progress → Progress × Result Raised (Unit {0}))
      → Progress × Result Raised (Unit {0})
  and_next (p, ok u) rest = rest p
  and_next (p, err e) rest = (p, err e)

  module _ {A : Type 0} (env : ℕ → Attempt) where
    -- The rows of a failed batch, one by one.
    unfoldable pub write_rows : List A → Progress → Progress × Result Raised (Unit {0})
    unfolding adds ends is_cancellation
    write_rows [] p = (p, ok tt)
    write_rows (r ∷ rs) p =
        let a = env p.scopes in
        handle (ends a) (add (adds (λ n. 1) a) p) (λ p'. write_rows rs (drop_rows 1 p'))
          (λ p'. write_rows rs p')

    abbrev pub on_failed_batch :
        Bool
        → List A
        → (Progress → Progress × Result Raised (Unit {0}))
        → Progress
        → Progress × Result Raised (Unit {0})
    on_failed_batch true batch rest p = and_next (write_rows batch p) rest
    on_failed_batch false batch rest p = rest (drop_rows (length batch) p)

    -- The batches in turn; `split` is the mode split_on_failure, else best_effort.
    unfoldable pub bulk_best_effort :
        Bool → List (List A) → Progress → Progress × Result Raised (Unit {0})
    unfolding adds ends counted is_cancellation write_rows
    bulk_best_effort split [] p = (p, ok tt)
    bulk_best_effort split (batch ∷ batches) p =
        let a = env p.scopes in
        handle (ends a) (add (adds (λ n. counted n (length batch)) a) p)
          (on_failed_batch split batch (λ p'. bulk_best_effort split batches p'))
          (λ p'. bulk_best_effort split batches p')

abbrev pub begin : Progress
begin = record { scopes = 0; written = 0; dropped = 0 }
