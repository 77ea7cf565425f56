-- ===== src/Bulk/Modes/Accounts.antt =====
-- Every row of a bulk write is counted, as written or as dropped.
use native.Mathlib.Nat.{zero-add}
use dbkit_sql.Prelude.{
  ℕ, ◌+◌, String, none, some, Bool, true, false, ◌≡◌, refl, inl, inr, List, [], ◌∷◌, length, arith,
  Result, ok, err, Bool-cases,
}
use dbkit_sql.Errors.Classify.{Raised, database}
use dbkit_sql.Connection.{is_cancellation}
use dbkit_sql.Executor.Scope.{Target}
use dbkit_sql.Bulk.Modes.{
  Attempt, Progress, counted, adds, ends, add, drop_rows, handle, and_next, write_rows,
  on_failed_batch, bulk_best_effort, begin,
}
use dbkit_sql.Bulk.Modes.Scopes.{Ends, stored, failed, cancelled, ends-cases, broken_commit}

whole : (n k : ℕ) → k ≡ 0 → counted k n ≡ n
unfolding counted
whole n k z = ground arith

-- If the call returns, it has counted `n` rows more.
abbrev Accounted : Progress → ℕ → Progress × Result Raised (Unit {0}) → Type 0
Accounted p n q = q.1 ≡ ok tt → q.0.written + q.0.dropped ≡ p.written + p.dropped + n

abbrev pub rows_in {ℓ} : {A : Type ℓ} → List (List A) → ℕ
rows_in [] = 0
rows_in (b ∷ bs) = length b + rows_in bs

module _ (sanitize : String → String) (t : Target) where
  and_next-Accounted :
      (p : Progress) (n m : ℕ) (q : Progress × Result Raised (Unit {0}))
      (rest : Progress → Progress × Result Raised (Unit {0}))
      → Accounted p n q
      → ((p' : Progress) → Accounted p' m (rest p'))
      → Accounted p (n + m) (and_next sanitize t q rest)
  and_next-Accounted p n m (p', ok u) rest h k = λ e. omega (arith, h refl, k p' e)
  and_next-Accounted p n m (p', err x) rest h k = λ e. cc e

  -- A handled outcome: the scope counted its rows, or it failed and `failed` counts them.
  handle-Accounted :
      (count : ℕ → ℕ) (n m : ℕ) (a : Attempt) (p : Progress)
      (other rest : Progress → Progress × Result Raised (Unit {0}))
      → Ends sanitize t count a
      → ((k : ℕ) → a.statement ≡ ok k → count k ≡ n)
      → ((p' : Progress) → Accounted p' m (rest p'))
      → ((p' : Progress) → Accounted p' (n + m) (other p'))
      → Accounted p (n + m) (
          handle sanitize t
            (ends sanitize t a)
            (add sanitize t (adds sanitize t count a) p)
            other
            rest)
  handle-Accounted count n m a p other rest (stored k s c e) q h g =
      rw (e, c, q k s) (λ d. omega (arith, h (add sanitize t n p) d))
  handle-Accounted count n m a p other rest (failed x c e) q h g =
      rw (e, c)
        (elim (Bool-cases (is_cancellation x)) [
          | inl stops ↦ rw stops (λ d. cc d)
          | inr goes_on ↦ rw goes_on (λ d. omega (arith, g (add sanitize t 0 p) d))
        ])
  handle-Accounted count n m a p other rest (cancelled x stops e) q h g = rw (e, stops) (λ d. cc d)

  module _ {A : Type 0} (env : ℕ → Attempt) (commits : (n : ℕ) → (env n).world.commits ≡ none)
      (unreported : (n k : ℕ) → (env n).statement ≡ ok k → k ≡ 0) where
    write_rows-Accounted :
        (rows : List A) (p : Progress)
        → Accounted p (length rows) (write_rows sanitize t env rows p)
    unfolding write_rows
    write_rows-Accounted [] p = λ e. omega arith
    write_rows-Accounted (r ∷ rs) p = λ e. omega (
      arith,
      handle-Accounted (λ n. 1) 1 (length rs) (env p.scopes) p _ _
          (ends-cases sanitize t (λ n. 1) (env p.scopes) (commits p.scopes)) (λ k s. refl)
          (λ p'. write_rows-Accounted rs p')
          (λ p' d. omega (arith, write_rows-Accounted rs (drop_rows sanitize t 1 p') d)) e,
    )

    failed_batch-Accounted :
        (split : Bool) (batch : List A) (m : ℕ)
        (rest : Progress → Progress × Result Raised (Unit {0}))
        → ((p : Progress) → Accounted p m (rest p))
        → (p : Progress)
        → Accounted p (length batch + m) (on_failed_batch sanitize t env split batch rest p)
    failed_batch-Accounted true batch m rest h p =
        and_next-Accounted p (length batch) m (write_rows sanitize t env batch p) rest
          (write_rows-Accounted batch p) h
    failed_batch-Accounted false batch m rest h p =
        λ e. omega (arith, h (drop_rows sanitize t (length batch) p) e)

    batches-Accounted :
        (split : Bool) (batches : List (List A)) (p : Progress)
        → Accounted p (rows_in batches) (bulk_best_effort sanitize t env split batches p)
    unfolding bulk_best_effort
    batches-Accounted split [] p = λ e. omega arith
    batches-Accounted split (batch ∷ batches) p =
        handle-Accounted (λ n. counted n (length batch)) (length batch) (rows_in batches)
          (env p.scopes) p _ _
          (ends-cases sanitize t (λ n. counted n (length batch)) (env p.scopes) (commits p.scopes))
          (λ k s. whole (length batch) k (unreported p.scopes k s))
          (λ p'. batches-Accounted split batches p')
          (λ p'.
            failed_batch-Accounted split batch (rows_in batches) _
              (λ q. batches-Accounted split batches q) p')

    -- Where no auto-commit fails and the driver reports no row counts, a bulk write that returns has counted
    -- every row of every batch exactly once, as written or as dropped, in both modes and whatever
    -- statements, connections and clean-ups failed.
    pub bulk_best_effort-accounts :
        (split : Bool) (batches : List (List A))
        → let (p, r) = bulk_best_effort sanitize t env split batches begin in
          r ≡ ok tt → p.written + p.dropped ≡ rows_in batches
    bulk_best_effort-accounts split batches e =
        omega (arith, batches-Accounted split batches begin e)

module _ (sanitize : String → String) (t : Target) where
  -- In the mode best_effort without splitting, take a call with a single batch that gets a connection, whose
  -- statement succeeds without a row count from the driver, whose COMMIT fails, and whose rollback and close
  -- succeed. Its rows are counted twice: the call returns with all of them among the written ones and all
  -- of them among the dropped ones.
  pub failed_commit_counted :
      {A : Type 0} (env : ℕ → Attempt) (batch : List A) (x : Raised)
      → (env 0).world.connects ≡ none
      → (env 0).statement ≡ ok 0
      → (env 0).world.commits ≡ some x
      → (env 0).world.rolls_back ≡ none
      → (env 0).world.closes ≡ none
      → bulk_best_effort sanitize t env false (batch ∷ []) begin
        ≡ (record { scopes = 1; written = length batch; dropped = length batch }, ok tt)
  unfolding bulk_best_effort
  failed_commit_counted env batch x c s k r l =
      let (e, raised) = broken_commit sanitize t (env 0).world x c k r l in
      let ended : ends sanitize t (env 0) ≡ err (database e) = unfold ends in rw s raised in
      let added : adds sanitize t (λ n. counted n (length batch)) (env 0) ≡ length batch =
        unfold adds counted in rw (c, s) refl in
      rw (ended, added) (unfold is_cancellation in simp (zero-add (length batch)) refl)
