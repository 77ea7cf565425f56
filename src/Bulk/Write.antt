-- ===== src/Bulk/Write.antt =====
-- `_bulk_write` of _async/database.py: the rows are cut into batches, and these are written in the mode
-- asked for. The engine and the slots of the limiter are there already; the rows share their columns, so
-- the parameters of every batch can be made (Bulk.Plan).
pub mod Succeeds
use dbkit_sql.Prelude.{
  ◌⊎◌, ℕ, suc, ◌≡◌, refl, sym, ap, ◌∙◌, String, Option, none, some, Bool, true, false, List, [],
  ◌∷◌, length, length-append, not, if-true, if-false, Bool-cases, inl, inr, ◌≢◌, ◌&&◌, Result, ok,
  err, arith, if◌then◌else◌,
}
use dbkit_sql.Errors.{Context, DatabaseError, unsupported_operation, make, no_context}
use dbkit_sql.Errors.Classify.{Raised, database}
use dbkit_sql.Transaction.{Settings, World}
use dbkit_sql.Executor.Scope.{Target}
use dbkit_sql.Bulk.{
  Row, pg_max_bind_params, resolve_batch_rows, iter_batches, column_names, requested_or,
}
use dbkit_sql.Bulk.Batches.{concat, iter_batches-concat}
use dbkit_sql.Bulk.Modes.{Attempt, Progress, bulk_best_effort, begin, counted}
use dbkit_sql.Bulk.Atomic.{bulk_atomic, bulk_atomic-commits, Wrote}

pub record BulkConfig : Type 0 where
  pub default_batch_rows : ℕ
  pub max_batch_rows : ℕ
  pub max_payload_bytes : Option ℕ

pub data FailureMode : Type 0 where
  atomic best_effort split_on_failure : FailureMode

pub data InsertStrategy : Type 0 where
  execute_many unnest : InsertStrategy

abbrev pub is_unnest : InsertStrategy → Bool
is_unnest execute_many = false
is_unnest unnest = true

abbrev is_split : FailureMode → Bool
is_split split_on_failure = true
is_split _ = false

abbrev pub first_row : List Row → Option Row
first_row [] = none
first_row (r ∷ rs) = some r

-- The rows of one batch, and the batches of the call.
abbrev pub batch_rows : BulkConfig → Option ℕ → List Row → ℕ
batch_rows cfg batch_size rows =
    resolve_batch_rows (length (column_names rows))
      (some (requested_or batch_size cfg.default_batch_rows))
      (record {
        max_rows = cfg.max_batch_rows;
        max_params = pg_max_bind_params;
        max_payload_bytes = cfg.max_payload_bytes;
      })
      (first_row rows)

unfoldable pub plan_batches : BulkConfig → Option ℕ → List Row → List (List Row)
unfolding requested_or resolve_batch_rows iter_batches column_names
plan_batches cfg batch_size rows = iter_batches rows (batch_rows cfg batch_size rows)

-- What the mode meets: a transaction and its statements, or one scope after another.
pub record BulkWorld : Type 0 where
  pub settings : Settings
  pub transaction : World
  pub statements : ℕ → Result Raised ℕ
  pub target : Target
  pub attempts : ℕ → Attempt

abbrev pub tally : Progress × Result Raised (Unit {0}) → Result Raised ℕ
tally (p, ok u) = ok p.written
tally (p, err e) = err e

module _ (sanitize : String → String) (ctx : Context) (w : BulkWorld) where
  unfoldable pub write_in_mode : FailureMode → List (List Row) → Result Raised ℕ
  unfolding bulk_atomic bulk_best_effort
  write_in_mode atomic batches =
      (bulk_atomic sanitize ctx w.statements w.settings w.transaction batches).1
  write_in_mode best_effort batches =
      tally (bulk_best_effort sanitize w.target w.attempts false batches begin)
  write_in_mode split_on_failure batches =
      tally (bulk_best_effort sanitize w.target w.attempts true batches begin)

  abbrev pub unsupported : DatabaseError
  unfolding make
  unsupported =
      make unsupported_operation
        "strategy='unnest' requires PostgreSQL; this target uses a different dialect" none
        no_context

  -- `_bulk_write`
  unfoldable pub bulk_write :
      BulkConfig → InsertStrategy → FailureMode → Option ℕ → List Row → Result Raised ℕ
  unfolding write_in_mode plan_batches
  bulk_write cfg strategy mode batch_size [] = ok 0
  bulk_write cfg strategy mode batch_size (r ∷ rs) =
      if is_unnest strategy && not w.settings.is_postgres
      then err (database unsupported)
      else write_in_mode mode (plan_batches cfg batch_size (r ∷ rs))

abbrev Unreported : (ℕ → Result Raised ℕ) → Type 0
Unreported env = (n reported : ℕ) → env n ≡ ok reported → reported ≡ 0

Wrote-length :
    (sanitize : String → String) (ctx : Context) (env : ℕ → Result Raised ℕ) (bs : List (List Row))
    (n total : ℕ)
    → Unreported env
    → Wrote sanitize ctx env bs n total
    → total ≡ length (concat bs)
unfolding counted
Wrote-length sanitize ctx env [] n total u h = h
Wrote-length sanitize ctx env (b ∷ bs) n total u (reported, rest, e, sum, h) =
    let rec = Wrote-length sanitize ctx env bs (suc n) rest u h in
    let silent = u n reported e in ground (arith, length-append b (concat bs))

module _ (sanitize : String → String) (ctx : Context) (w : BulkWorld) (cfg : BulkConfig) where
  -- Where the driver reports no row counts, an atomic bulk write that returns a number has committed its
  -- transaction and returns the number of the rows that it was given, whatever the strategy and the sizes of
  -- the batches; or it was given no rows at all.
  pub bulk_write-all_rows :
      (strategy : InsertStrategy) (batch_size : Option ℕ) (rows : List Row) (n : ℕ)
      → Unreported w.statements
      → bulk_write sanitize ctx w cfg strategy atomic batch_size rows ≡ ok n
      → (n ≡ length rows) × ((rows ≡ []) ⊎ (w.transaction.commits ≡ none))
  unfolding bulk_write write_in_mode plan_batches
  bulk_write-all_rows strategy batch_size [] n u h = (ground arith, inl refl)
  bulk_write-all_rows strategy batch_size (r ∷ rs) n u h =
      elim (Bool-cases (is_unnest strategy && not w.settings.is_postgres)) [
        | inl refused ↦
            let g : err (database (unsupported sanitize ctx w)) ≡ ok n =
              sym (if-true _ _ refused) ∙ h in
            cc
        | inr fits ↦
            let batches = plan_batches cfg batch_size (r ∷ rs) in
            let (committed, wrote) =
              bulk_atomic-commits sanitize ctx w.statements w.settings w.transaction batches n
                (sym (if-false _ _ fits) ∙ h) in
            (
              Wrote-length sanitize ctx w.statements batches 0 n u wrote
                  ∙ ap length (iter_batches-concat (r ∷ rs) (batch_rows cfg batch_size (r ∷ rs))).0,
              inr committed,
            )
      ]
