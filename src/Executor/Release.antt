-- ===== src/Executor/Release.antt =====
-- The connection of a scope is closed exactly once, and an unknown commit is told.
use dbkit_sql.Prelude.{
  suc, String, Option, none, some, Bool, true, false, ◌≡◌, refl, ◌∙◌, ap, [], ◌∷◌, Result, ok, err,
  arith,
}
use dbkit_sql.Errors.Classify.{Raised, is_connection_error}
use dbkit_sql.Connection.{
  Connection, Awaited, connect, commit, rollback, close, call, suppress, finally, settle, closes,
}
use dbkit_sql.Connection.Keeps.{
  Keeps, closes-append, done-Keeps, call-Keeps, and_then-Keeps, on_error-Keeps, suppress-Keeps,
  if-Keeps,
}
use dbkit_sql.Transaction.{no_connection}
use dbkit_sql.Executor.Scope.{Target, World, auto_commit, end_block, scope}

module _ (sanitize : String → String) (t : Target) where
  auto_commit-Keeps : (w : World) (c : Connection) → Keeps c (auto_commit sanitize t w c)
  unfolding auto_commit
  auto_commit-Keeps w c =
      on_error-Keeps c (call commit w.commits c) _ (call-Keeps commit w.commits c refl) (λ e c'.
        if-Keeps (is_connection_error e) c' _ _ (done-Keeps c' _) (
          and_then-Keeps c' _ _ (suppress-Keeps c' _ (call-Keeps rollback w.rolls_back c' refl))
            (λ c''. done-Keeps c'' _)))

  end_block-Keeps :
      (w : World) (commits : Bool) (exc : Option Raised) (c : Connection)
      → Keeps c (end_block sanitize t w commits exc c)
  unfolding end_block
  end_block-Keeps w commits (some e) c =
      and_then-Keeps c _ _ (suppress-Keeps c _ (call-Keeps rollback w.rolls_back c refl))
        (λ c'. done-Keeps c' (err e))
  end_block-Keeps w true none c = auto_commit-Keeps w c
  end_block-Keeps w false none c = done-Keeps c (ok tt)

  settled : (r : Result Raised (Unit {0})) (a : Awaited) → (settle r a).0 ≡ a.0
  settled r (c, ok tt) = refl
  settled r (c, err e) = refl

  closing :
      (w : World) (c : Connection)
      → closes (suppress (call close w.closes c)).0.log ≡ suc (closes c.log)
  unfolding suppress call
  closing w c = ground (arith, closes-append c.log close)

  finally-closes :
      (w : World) (a : Awaited) (c : Connection)
      → Keeps c a
      → closes (finally a (λ c'. suppress (call close w.closes c'))).0.log ≡ suc (closes c.log)
  finally-closes w (c', r) c k =
      ap (λ x. closes x.log) (settled r (suppress (call close w.closes c')))
      ∙ closing w c'
      ∙ ap suc k.none_closed

  -- A scope whose connection could be taken calls the connection's `close` exactly once, whatever its
  -- block, its rollback and its commit do, cancellations included. That call is not shielded, and what
  -- becomes of the connection if a cancellation interrupts the call is left open.
  pub scope-closes_once :
      (w : World) (commits : Bool) (exc : Option Raised)
      → w.connects ≡ none
      → closes (scope sanitize t w commits exc no_connection).0.log ≡ 1
  unfolding scope no_connection call
  scope-closes_once w commits exc h =
      let c : Connection = record {
        connected = true;
        in_transaction = false;
        log = connect ∷ [];
      } in
      simp h (
        finally-closes w (end_block sanitize t w commits exc c) c (end_block-Keeps w commits exc c))
