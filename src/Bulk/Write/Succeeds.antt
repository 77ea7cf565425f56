-- ===== src/Bulk/Write/Succeeds.antt =====
-- Bulk writes where no call fails.
use dbkit_sql.Prelude.{
  ℕ, suc, ◌+◌, ◌≡◌, refl, ap, ◌∙◌, String, Option, none, false, List, [], ◌∷◌, not, ◌&&◌, length,
  length-append, Result, ok, err, arith, if-false,
}
use dbkit_sql.Errors.{Context}
use dbkit_sql.Errors.Classify.{Raised}
use dbkit_sql.Connection.{call, suppress, shielded, Awaited}
use dbkit_sql.Transaction.{
  Settings, World, transact, enter, exit, open_transaction, apply_settings, has_options,
  commit_transaction, release, no_connection,
}
use dbkit_sql.Bulk.{Row}
use dbkit_sql.Bulk.Batches.{concat, iter_batches-concat}
use dbkit_sql.Bulk.Modes.{counted}
use dbkit_sql.Bulk.Atomic.{write_batches, bulk_atomic, with_count}
use dbkit_sql.Bulk.Write.{
  BulkConfig, BulkWorld, InsertStrategy, atomic, is_unnest, bulk_write, write_in_mode, plan_batches,
  batch_rows,
}

-- What a transaction meets where nothing fails.
abbrev pub quiet_world : World
quiet_world = record {
  connects = none;
  takes_options = none;
  begins = none;
  sets_statement_timeout = none;
  sets_lock_timeout = none;
  commits = none;
  rolls_back = none;
  rollback_interrupted = none;
  invalidates = none;
  closes = none;
  release_interrupted = none;
}

transact-quiet :
    (sanitize : String → String) (s : Settings) → (transact sanitize s quiet_world none).1 ≡ ok tt
unfolding transact enter exit open_transaction apply_settings has_options commit_transaction release
    call suppress shielded no_connection
transact-quiet sanitize s = ground arith

write_batches-silent :
    (sanitize : String → String) (ctx : Context) (env : ℕ → Result Raised ℕ) {A : Type 0}
    (bs : List (List A)) (n written : ℕ)
    → ((k : ℕ) → env k ≡ ok 0)
    → write_batches sanitize ctx env bs n written ≡ (written + length (concat bs), none)
unfolding write_batches counted
write_batches-silent sanitize ctx env [] n written h = ap (λ k. (k, none)) (omega arith)
write_batches-silent sanitize ctx env (b ∷ bs) n written h =
    rw (h n, write_batches)
      (write_batches-silent sanitize ctx env bs (suc n) (written + length b) h
        ∙ ap (λ k. (k, none)) (omega (arith, length-append b (concat bs))))

with_count-of : (n : ℕ) (a : Awaited) → a.1 ≡ ok tt → (with_count n a).1 ≡ ok n
with_count-of n (c, ok u) h = refl
with_count-of n (c, err e) h = cc

bulk_atomic-quiet :
    (sanitize : String → String) (ctx : Context) (env : ℕ → Result Raised ℕ) (s : Settings)
    (w : World) (bs : List (List Row))
    → w ≡ quiet_world
    → ((k : ℕ) → env k ≡ ok 0)
    → (bulk_atomic sanitize ctx env s w bs).1 ≡ ok (length (concat bs))
unfolding bulk_atomic
bulk_atomic-quiet sanitize ctx env s w bs q h =
    ap (λ (r : ℕ × Option Raised). (with_count r.0 (transact sanitize s w r.1)).1)
      (write_batches-silent sanitize ctx env bs 0 0 h)
    ∙ ap (λ v. (with_count (0 + length (concat bs)) (transact sanitize s v none)).1) q
    ∙ with_count-of (0 + length (concat bs)) _ (transact-quiet sanitize s)
    ∙ ap ok (omega arith)

-- Where every call of the transaction and every statement succeeds and the driver reports no row counts, an
-- atomic bulk write returns the number of the rows that it was given, whatever the strategy, if the target
-- supports it, and whatever the sizes of the batches.
bulk_write-succeeds :
    (sanitize : String → String) (ctx : Context) (w : BulkWorld) (cfg : BulkConfig)
    (strategy : InsertStrategy) (batch_size : Option ℕ) (rows : List Row)
    → w.transaction ≡ quiet_world
    → ((k : ℕ) → w.statements k ≡ ok 0)
    → (is_unnest strategy && not w.settings.is_postgres) ≡ false
    → bulk_write sanitize ctx w cfg strategy atomic batch_size rows ≡ ok (length rows)
unfolding bulk_write write_in_mode plan_batches bulk_atomic
bulk_write-succeeds sanitize ctx w cfg strategy batch_size [] q h fits = refl
bulk_write-succeeds sanitize ctx w cfg strategy batch_size (r ∷ rs) q h fits =
    let batches = plan_batches cfg batch_size (r ∷ rs) in
    let total = (iter_batches-concat (r ∷ rs) (batch_rows cfg batch_size (r ∷ rs))).0 in
    if-false _ _ fits
    ∙ bulk_atomic-quiet sanitize ctx w.statements w.settings w.transaction batches q h
    ∙ ap (λ xs. ok (length xs)) total
