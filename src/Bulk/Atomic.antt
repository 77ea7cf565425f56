-- ===== src/Bulk/Atomic.antt =====
-- The mode `atomic` of `_bulk_write` of _async/database.py: all batches in one transaction. `env` gives the
-- outcome of the n-th statement, with the row count that the driver reports (0 where it reports none, or
-- one that is not positive); `w` is what the transaction meets.
use dbkit_sql.Prelude.{
  ℕ, suc, ◌+◌, ◌≡◌, refl, subst, String, Option, none, some, List, [], ◌∷◌, length, Result, ok, err,
  if◌then◌else◌, arith,
}
use dbkit_sql.Errors.{Context}
use dbkit_sql.Errors.Classify.{Raised, database, classify}
use dbkit_sql.Connection.{
  Connection, Awaited, is_cancellation, call, suppress, and_then, finally, settle,
}
use dbkit_sql.Transaction.{
  Settings, World, transact, exit, enter, end_body, release, commit_transaction, no_connection,
  roll_back,
}
use dbkit_sql.Bulk.Modes.{counted}

abbrev pub with_count : ℕ → Awaited → Connection × Result Raised ℕ
with_count n (c, ok u) = (c, ok n)
with_count n (c, err e) = (c, err e)

module _ (sanitize : String → String) (ctx : Context) (env : ℕ → Result Raised ℕ) {A : Type 0} where
  -- The loop over the batches, from the n-th on: what is written so far, and what the loop raises.
  unfoldable pub write_batches : List (List A) → ℕ → ℕ → ℕ × Option Raised
  unfolding counted is_cancellation classify
  write_batches [] n written = (written, none)
  write_batches (b ∷ bs) n written = elim (env n) [
    | ok reported ↦ write_batches bs (suc n) (written + counted reported (length b))
    | err e ↦ (written, some (if is_cancellation e then e else database (classify sanitize e ctx)))
  ]

  unfoldable pub bulk_atomic : Settings → World → List (List A) → Connection × Result Raised ℕ
  unfolding write_batches transact
  bulk_atomic s w batches =
      let (written, exc) = write_batches batches 0 0 in
      with_count written (transact sanitize s w exc)

  -- The rows of all batches from the n-th on, each counted as the driver reported it; where a statement
  -- fails there is no such number.
  abbrev pub Wrote : List (List A) → ℕ → ℕ → Type 0
  Wrote [] n total = total ≡ 0
  Wrote (b ∷ bs) n total =
      (reported rest : ℕ) × (env n ≡ ok reported)
      × (total ≡ counted reported (length b) + rest)
      × Wrote bs (suc n) rest

  write_batches-Wrote :
      (bs : List (List A)) (n written : ℕ)
      → (write_batches bs n written).1 ≡ none
      → (total : ℕ) × ((write_batches bs n written).0 ≡ written + total) × Wrote bs n total
  unfolding write_batches
  write_batches-Wrote [] n written h = (0, omega arith, refl)
  write_batches-Wrote (b ∷ bs) n written h =
      elim (env n)
          as (λ r.
            env n ≡ r
            → (step r).1 ≡ none
            → (total : ℕ) × ((step r).0 ≡ written + total) × Wrote (b ∷ bs) n total) [
              | ok reported ↦ λ e g.
                  let (rest, sum, wrote) =
                    write_batches-Wrote bs (suc n) (written + counted reported (length b)) g in
                  (
                    counted reported (length b) + rest,
                    omega (arith, sum),
                    (reported, rest, e, refl, wrote),
                  )
              | err x ↦ λ e g. cc
            ]
        refl h
    where
      step : Result Raised ℕ → ℕ × Option Raised
      step r = elim r [
        | ok reported ↦ write_batches bs (suc n) (written + counted reported (length b))
        | err e ↦
            (written, some (if is_cancellation e then e else database (classify sanitize e ctx)))
      ]

pub and_then-ok :
    (a : Awaited) (next : Connection → Awaited) → (and_then a next).1 ≡ ok tt → (next a.0).1 ≡ ok tt
and_then-ok (c, ok tt) next h = h
and_then-ok (c, err e) next h = cc

pub finally-ok :
    (a : Awaited) (last : Connection → Awaited) → (finally a last).1 ≡ ok tt → a.1 ≡ ok tt
finally-ok (c, r) last h = settled (last c) h
  where
    settled : (b : Awaited) → (settle r b).1 ≡ ok tt → r ≡ ok tt
    settled (c', ok u) g = g
    settled (c', err e) g = cc

module _ (sanitize : String → String) (s : Settings) (w : World) where
  commit_transaction-ok :
      (c : Connection) → (commit_transaction sanitize s w c).1 ≡ ok tt → w.commits ≡ none
  unfolding commit_transaction call suppress
  commit_transaction-ok c h = ground arith

  end_body-ok :
      (exc : Option Raised) (c : Connection)
      → (end_body sanitize s w exc c).1 ≡ ok tt
      → (exc ≡ none) × (w.commits ≡ none)
  end_body-ok none c h = (refl, commit_transaction-ok c h)
  end_body-ok (some e) c h =
      let g = and_then-ok (roll_back w (is_cancellation e) c) (λ c'. (c', err e)) h in cc

  transact-ok :
      (exc : Option Raised)
      → (transact sanitize s w exc).1 ≡ ok tt
      → (exc ≡ none) × (w.commits ≡ none)
  unfolding transact exit
  transact-ok exc h =
      let c = (enter sanitize s w no_connection).0 in
      end_body-ok exc c (
        finally-ok (end_body sanitize s w exc c) (release w)
          (and_then-ok (enter sanitize s w no_connection) (exit sanitize s w exc) h))

with_count-ok : (n m : ℕ) (a : Awaited) → (with_count n a).1 ≡ ok m → (a.1 ≡ ok tt) × (n ≡ m)
with_count-ok n m (c, ok tt) h = (refl, cc)
with_count-ok n m (c, err e) h = cc

-- All or nothing: when an atomic bulk write returns a number, every statement succeeded and so did the
-- COMMIT, and the number is the sum over the batches of the rows that the driver reported, or of the
-- batch's own length where it reported none.
pub bulk_atomic-commits :
    (sanitize : String → String) (ctx : Context) (env : ℕ → Result Raised ℕ) {A : Type 0}
    (s : Settings) (w : World) (batches : List (List A)) (n : ℕ)
    → (bulk_atomic sanitize ctx env s w batches).1 ≡ ok n
    → (w.commits ≡ none) × Wrote sanitize ctx env batches 0 n
unfolding bulk_atomic
bulk_atomic-commits sanitize ctx env s w batches n h =
    let loop = write_batches sanitize ctx env batches 0 0 in
    let (done, same) = with_count-ok loop.0 n (transact sanitize s w loop.1) h in
    let (clean, committed) = transact-ok sanitize s w loop.1 done in
    let (total, sum, wrote) = write_batches-Wrote sanitize ctx env batches 0 0 clean in
    let exact : total ≡ n = omega (arith, sum, same) in
    (committed, subst (Wrote sanitize ctx env batches 0) exact wrote)
