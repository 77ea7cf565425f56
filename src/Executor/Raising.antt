-- ===== src/Executor/Raising.antt =====
-- What the scope of the executor raises.
use dbkit_sql.Prelude.{
  ◌≡◌, refl, String, Option, none, some, Bool, true, false, ok, err, inl, inr, Bool-cases,
}
use dbkit_sql.Errors.Classify.{Raised, is_connection_error}
use dbkit_sql.Connection.{
  Connection, Awaited, call, and_then, on_error, suppress, finally, settle, connect, commit,
  is_cancellation, close, rollback,
}
use dbkit_sql.Transaction.{no_connection}
use dbkit_sql.Bulk.Atomic.{and_then-ok, finally-ok}
use dbkit_sql.Fetch.Raising.{Proper, Raises}
use dbkit_sql.Executor.Scope.{Target, World, scope, acquire, auto_commit, end_block}

and_then-Raises :
    (a : Awaited) (next : Connection → Awaited)
    → Raises a.1
    → ((c : Connection) → Raises (next c).1)
    → Raises (and_then a next).1
and_then-Raises (c, ok tt) next h k = k c
and_then-Raises (c, err e) next h k = h

on_error-Raises :
    (a : Awaited) (handler : Raised → Connection → Awaited)
    → ((e : Raised) (c : Connection) → Raises (handler e c).1)
    → Raises (on_error a handler).1
on_error-Raises (c, ok tt) handler k = tt
on_error-Raises (c, err e) handler k = k e c

finally-Raises :
    (a : Awaited) (last : Connection → Awaited)
    → Raises a.1
    → ((c : Connection) → Raises (last c).1)
    → Raises (finally a last).1
finally-Raises (c, r) last h k = settled (last c) (k c)
  where
    settled : (b : Awaited) → Raises b.1 → Raises (settle r b).1
    settled (c', ok u) g = h
    settled (c', err e) g = g

suppress-Raises : (a : Awaited) → Raises (suppress a).1
unfolding suppress
suppress-Raises (c, ok tt) = tt
suppress-Raises (c, err e) = elim (Bool-cases (is_cancellation e)) [
  | inl stops ↦ rw stops (inl stops)
  | inr passes ↦ rw passes tt
]

abbrev pub RaisesIn : Option Raised → Type 0
RaisesIn none = Unit
RaisesIn (some e) = Proper e

module _ (sanitize : String → String) (t : Target) (w : World) where
  abbrev closing : Connection → Awaited
  closing c = suppress (call close w.closes c)

  end_block-Raises :
      (commits : Bool) (o : Option Raised) (c : Connection)
      → RaisesIn o
      → Raises (end_block sanitize t w commits o c).1
  unfolding end_block auto_commit
  end_block-Raises commits (some e) c h =
      and_then-Raises (suppress (call rollback w.rolls_back c)) (λ c'. (c', err e))
        (suppress-Raises _) (λ c'. h)
  end_block-Raises true none c h = on_error-Raises (call commit w.commits c) _ (λ e c'.
      elim (Bool-cases (is_connection_error e)) [
        | inl broken ↦ rw broken (inr (_, refl))
        | inr other ↦ rw other (
            and_then-Raises (suppress (call rollback w.rolls_back c')) _ (suppress-Raises _)
              (λ c''. inr (_, refl)))
      ])
  end_block-Raises false none c h = tt

  pub scope-Raises :
      (commits : Bool) (o : Option Raised)
      → RaisesIn o
      → Raises (scope sanitize t w commits o no_connection).1
  unfolding scope acquire
  scope-Raises commits o h =
      and_then-Raises (acquire sanitize t w no_connection) _
        (and_then-Raises (on_error (call connect w.connects no_connection) _) _
          (on_error-Raises (call connect w.connects no_connection) _ (λ e c'.
            elim (Bool-cases (is_cancellation e)) [
              | inl stops ↦ rw stops (inl stops)
              | inr passes ↦ rw passes (inr (_, refl))
            ]))
          (λ c. tt))
        (λ c.
          finally-Raises (end_block sanitize t w commits o c) closing
            (end_block-Raises commits o c h) (λ c'. suppress-Raises (call close w.closes c')))

  -- A block that raised does not end well.
  pub scope-fails :
      (commits : Bool) (e : Raised)
      → (scope sanitize t w commits (some e) no_connection).1 ≡ ok tt
      → ⊥
  unfolding scope end_block
  scope-fails commits e h =
      let c = (acquire sanitize t w no_connection).0 in
      let ended =
        and_then-ok (acquire sanitize t w no_connection)
          (λ c'. finally (end_block sanitize t w commits (some e) c') closing) h in
      let block = finally-ok (end_block sanitize t w commits (some e) c) closing ended in
      let goes_on =
        and_then-ok (suppress (call rollback w.rolls_back c)) (λ c'. (c', err e)) block in
      cc goes_on
