-- ===== src/Bulk/Modes/Scopes.antt =====
-- How a scope of a bulk write can end.
use dbkit_sql.Prelude.{
  ℕ, String, Option, none, some, true, ◌≡◌, refl, ◌⊎◌, inl, inr, Result, ok, err, Bool-cases,
}
use dbkit_sql.Errors.{DatabaseError}
use dbkit_sql.Errors.Classify.{Raised, database, classify, is_connection_error}
use dbkit_sql.Connection.{
  Connection, Awaited, close, settle, is_cancellation, suppress, call, and_then, finally,
}
use dbkit_sql.Transaction.{no_connection}
use dbkit_sql.Executor.Scope.{
  Target, World, scope, acquire, auto_commit, end_block, unknown_error, commit_context,
}
use dbkit_sql.Bulk.Modes.{Attempt, body_error, adds, ends}

abbrev IsRaised : Result Raised (Unit {0}) → Type 0
IsRaised r = (x : Raised) × (r ≡ err x)

settle-IsRaised :
    (r : Result Raised (Unit {0})) (b : Awaited) → IsRaised r → IsRaised (settle r b).1
settle-IsRaised r (c, ok u) h = h
settle-IsRaised r (c, err e) h = (e, refl)

finally-IsRaised :
    (a : Awaited) (last : Connection → Awaited) → IsRaised a.1 → IsRaised (finally a last).1
finally-IsRaised (c, r) last h = settle-IsRaised r (last c) h

and_then-IsRaised :
    (a : Awaited) (next : Connection → Awaited)
    → ((c : Connection) → IsRaised (next c).1)
    → IsRaised (and_then a next).1
and_then-IsRaised (c, ok u) next h = h c
and_then-IsRaised (c, err e) next h = (e, refl)

-- It ended well, or with a cancellation.
abbrev IsQuiet : Result Raised (Unit {0}) → Type 0
IsQuiet r = (r ≡ ok tt) ⊎ ((e : Raised) × (is_cancellation e ≡ true) × (r ≡ err e))

settle-IsQuiet : (b : Awaited) → IsQuiet b.1 → IsQuiet (settle (ok tt) b).1
settle-IsQuiet (c, ok u) h = inl refl
settle-IsQuiet (c, err e) h = h

close-IsQuiet : (o : Option Raised) (c : Connection) → IsQuiet (suppress (call close o c)).1
unfolding suppress call
close-IsQuiet none c = inl refl
close-IsQuiet (some e) c = elim (Bool-cases (is_cancellation e)) [
  | inl stops ↦ inr (e, stops, rw stops refl)
  | inr goes_on ↦ inl (rw goes_on refl)
]

module _ (sanitize : String → String) (t : Target) where
  -- The ways in which a scope can end, where its commit does not fail.
  pub data Ends (count : ℕ → ℕ) (a : Attempt) : Type 0 where
    stored :
        (n : ℕ)
        → a.statement ≡ ok n
        → adds sanitize t count a ≡ count n
        → ends sanitize t a ≡ ok tt
        → Ends count a
    failed : (e : Raised) → adds sanitize t count a ≡ 0 → ends sanitize t a ≡ err e → Ends count a
    cancelled : (e : Raised) → is_cancellation e ≡ true → ends sanitize t a ≡ err e → Ends count a

  failing_body :
      (w : World) (e : Raised) → IsRaised (scope sanitize t w true (some e) no_connection).1
  unfolding scope end_block
  failing_body w e = and_then-IsRaised (acquire sanitize t w no_connection) _ (λ c.
      finally-IsRaised _ (λ c'. suppress (call close w.closes c'))
        (and_then-IsRaised _ _ (λ c'. (e, refl))))

  failing_connect :
      (w : World) (exc : Option Raised) (x : Raised)
      → w.connects ≡ some x
      → IsRaised (scope sanitize t w true exc no_connection).1
  unfolding scope acquire call
  failing_connect w exc x h = simp h (_, refl)

  block-IsQuiet :
      (w : World)
      → w.connects ≡ none
      → w.commits ≡ none
      → IsQuiet (scope sanitize t w true none no_connection).1
  unfolding scope acquire auto_commit end_block call
  block-IsQuiet w h k =
      simp (h, k) (settle-IsQuiet (suppress (call close w.closes _)) (close-IsQuiet w.closes _))

  pub ends-cases : (count : ℕ → ℕ) (a : Attempt) → a.world.commits ≡ none → Ends count a
  unfolding adds ends
  ends-cases count a k = by_outcome a.statement a.world.connects refl refl
    where
      by_outcome :
          (r : Result Raised ℕ) (o : Option Raised)
          → a.statement ≡ r
          → a.world.connects ≡ o
          → Ends count a
      by_outcome (ok n) none s c = elim (block-IsQuiet a.world c k) [
        | inl good ↦ stored n s (rw (s, c) refl) (rw s good)
        | inr (e, stops, raised) ↦ cancelled e stops (rw s raised)
      ]
      by_outcome (err e) none s c =
          let (x, raised) = failing_body a.world e in failed x (rw (s, c) refl) (rw s raised)
      by_outcome r (some e) s c =
          let (x, raised) = failing_connect a.world (body_error a.statement) e c in
          failed x (rw c refl) raised

  pub broken_commit :
      (w : World) (x : Raised)
      → w.connects ≡ none
      → w.commits ≡ some x
      → w.rolls_back ≡ none
      → w.closes ≡ none
      → (e : DatabaseError) × ((scope sanitize t w true none no_connection).1 ≡ err (database e))
  unfolding scope acquire auto_commit end_block call suppress
  broken_commit w x c k r l = elim (Bool-cases (is_connection_error x)) [
    | inl lost ↦ (unknown_error sanitize t, simp (c, k, l) (simp lost refl))
    | inr other ↦
        (classify sanitize x (commit_context sanitize t), simp (c, k, l) (simp (other, r) refl))
  ]
