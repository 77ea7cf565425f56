-- ===== src/Transaction/Release.antt =====
-- A connection that was taken is given back exactly once.
use dbkit_sql.Prelude.{
  suc, String, Option, none, some, Bool, true, false, ◌≡◌, refl, ap, ◌∙◌, [], ◌∷◌, Result, ok, err,
  arith, if◌then◌else◌,
}
use dbkit_sql.Errors.Classify.{Raised, is_connection_error}
use dbkit_sql.Connection.{
  Connection, Awaited, Effect, connect, take_options, begin, set_statement_timeout,
  set_lock_timeout, commit, rollback, invalidate, close, call, and_then, on_error, suppress,
  shielded, finally, settle, is_cancellation, closes,
}
use dbkit_sql.Transaction.{
  Settings, World, call_if, apply_settings, release, cleanup_on_enter_failure, roll_back,
  no_connection, open_transaction, enter, raise_classified, commit_transaction, end_body, exit,
  transact, has_options, begun, positive,
}
use dbkit_sql.Connection.Keeps.{
  Keeps, closes-append, done-Keeps, call-Keeps, and_then-Keeps, on_error-Keeps, suppress-Keeps,
  shielded-Keeps, if-Keeps, NotCancelled, suppressed, logged,
}

call_if-Keeps :
    (b : Bool) (f : Effect) (o : Option Raised) (c : Connection)
    → closes (f ∷ []) ≡ 0
    → Keeps c (call_if b f o c)
call_if-Keeps true f o c h = call-Keeps f o c h
call_if-Keeps false f o c h = done-Keeps c (ok tt)

roll_back-Keeps : (w : World) (b : Bool) (c : Connection) → Keeps c (roll_back w b c)
unfolding roll_back
roll_back-Keeps w b c =
    if-Keeps c.in_transaction c _ _
      (and_then-Keeps c _ _
        (shielded-Keeps w.rollback_interrupted c _ (
          on_error-Keeps c (call rollback w.rolls_back c) _
            (call-Keeps rollback w.rolls_back c refl)
            (λ e c'.
              if-Keeps (is_cancellation e) c' _ _ (done-Keeps c' (err e))
                (suppress-Keeps c' _ (call-Keeps invalidate w.invalidates c' refl)))))
        (λ c'.
          if-Keeps b c' _ _ (suppress-Keeps c' _ (call-Keeps invalidate w.invalidates c' refl))
            (done-Keeps c' (ok tt))))
      (done-Keeps c (ok tt))

apply_settings-Keeps : (s : Settings) (w : World) (c : Connection) → Keeps c (apply_settings s w c)
unfolding apply_settings
apply_settings-Keeps s w c =
    if-Keeps s.is_postgres c _ _
      (and_then-Keeps c _ _
        (call_if-Keeps (positive s.timeout) set_statement_timeout w.sets_statement_timeout c refl)
        (λ c'.
          call_if-Keeps (positive s.lock_timeout) set_lock_timeout w.sets_lock_timeout c' refl))
      (done-Keeps c (ok tt))

-- A release of a held connection closes it, whatever comes of that.
release-closes :
    (w : World) (c : Connection)
    → c.connected ≡ true
    → closes (release w c).0.log ≡ suc (closes c.log)
unfolding release call suppress shielded
release-closes w c h = ground (arith, closes-append c.log close)

module _ (sanitize : String → String) (s : Settings) where
  commit-Keeps : (w : World) (c : Connection) → Keeps c (commit_transaction sanitize s w c)
  unfolding commit_transaction
  commit-Keeps w c =
      on_error-Keeps c (call commit w.commits c) _ (call-Keeps commit w.commits c refl) (λ e c'.
        if-Keeps (is_connection_error e) c' _ _ (done-Keeps c' _) (
          and_then-Keeps c' _ _ (suppress-Keeps c' _ (call-Keeps rollback w.rolls_back c' refl))
            (λ c''. done-Keeps c'' _)))

  pub end_body-Keeps :
      (w : World) (exc : Option Raised) (c : Connection) → Keeps c (end_body sanitize s w exc c)
  end_body-Keeps w none c = commit-Keeps w c
  end_body-Keeps w (some e) c =
      and_then-Keeps c _ _ (roll_back-Keeps w (is_cancellation e) c) (λ c'. done-Keeps c' (err e))

  finally-closes :
      (w : World) (a : Awaited) (c : Connection)
      → Keeps c a
      → c.connected ≡ true
      → closes (finally a (release w)).0.log ≡ suc (closes c.log)
  finally-closes w (c', r) c k h =
      settled r (release w c') ∙ release-closes w c' (k.held ∙ h) ∙ ap suc k.none_closed
    where
      settled :
          (r : Result Raised (Unit {0})) (a : Awaited) → closes (settle r a).0.log ≡ closes a.0.log
      settled r (c, ok tt) = refl
      settled r (c, err e) = refl

  -- Leaving a transaction gives its connection back exactly once, whether the body or COMMIT, the rollback,
  -- the invalidation or the closing failed, and whatever cancellations arrived in the meantime.
  pub exit-closes_once :
      (w : World) (exc : Option Raised) (c : Connection)
      → c.connected ≡ true
      → closes (exit sanitize s w exc c).0.log ≡ suc (closes c.log)
  unfolding exit
  exit-closes_once w exc c h =
      finally-closes w (end_body sanitize s w exc c) c (end_body-Keeps w exc c) h

cleanup-closes :
    (w : World) (c : Connection)
    → c.connected ≡ true
    → NotCancelled w.rolls_back
    → closes (cleanup_on_enter_failure w c).0.log ≡ suc (closes c.log)
unfolding cleanup_on_enter_failure
cleanup-closes w c h n =
    either c.in_transaction (suppress (call rollback w.rolls_back c)) (c, ok tt)
      (rw (suppressed rollback w.rolls_back c n)
        (omega (arith, release-closes w (logged rollback c) h, closes-append c.log rollback)))
      (release-closes w c h)
  where
    either :
        (b : Bool) (x y : Awaited)
        → closes (and_then x (release w)).0.log ≡ suc (closes c.log)
        → closes (and_then y (release w)).0.log ≡ suc (closes c.log)
        → closes (and_then (if b then x else y) (release w)).0.log ≡ suc (closes c.log)
    either true x y h k = h
    either false x y h k = k

module _ (sanitize : String → String) (s : Settings) where
  begun-Keeps : (c : Connection) → Keeps c (begun sanitize s c)
  begun-Keeps c = record { held = refl; none_closed = refl }

  -- Opening a transaction on a connection that could be taken: it is held, and not given back.
  opened-Keeps :
      (w : World)
      → w.connects ≡ none
      → Keeps
          (record { connected = true; in_transaction = false; log = connect ∷ [] })
          (open_transaction sanitize s w no_connection)
  unfolding open_transaction no_connection call
  opened-Keeps w h =
      let c : Connection = record {
        connected = true;
        in_transaction = false;
        log = connect ∷ [];
      } in
      simp h (
        and_then-Keeps c _ _
          (and_then-Keeps c _ _
            (and_then-Keeps c _ _
              (call_if-Keeps (has_options s) take_options w.takes_options c refl)
              (λ c'. call-Keeps begin w.begins c' refl))
            (λ c'. begun-Keeps c'))
          (λ c'. apply_settings-Keeps s w c'))

  raised-log : (a : Awaited) (e : Raised) → (and_then a (raise_classified sanitize s e)).0 ≡ a.0
  raised-log (c, ok tt) e = refl
  raised-log (c, err x) e = refl

  whole-closes :
      (w : World) (exc : Option Raised) (a : Awaited)
      → ((e : Raised) → a.1 ≡ err e → NotCancelled w.rolls_back)
      → a.0.connected ≡ true
      → closes a.0.log ≡ 0
      → closes
          (and_then
            (on_error a
              (λ e c'. and_then (cleanup_on_enter_failure w c') (raise_classified sanitize s e)))
            (exit sanitize s w exc)).0.log
        ≡ 1
  whole-closes w exc (c, ok tt) n h z = exit-closes_once sanitize s w exc c h ∙ ap suc z
  whole-closes w exc (c, err e) n h z =
      after_raise (cleanup_on_enter_failure w c) (cleanup-closes w c h (n e refl) ∙ ap suc z)
    where
      after_raise :
          (a : Awaited)
          → closes a.0.log ≡ 1
          → closes
              (and_then (and_then a (raise_classified sanitize s e)) (exit sanitize s w exc)).0.log
            ≡ 1
      after_raise (c, ok tt) h = h
      after_raise (c, err x) h = h

  -- A transaction whose connection could be taken gives it back exactly once, whichever call fails while it
  -- is opened, used, committed or rolled back and whatever cancellations arrive, as long as none arrives
  -- in the rollback after a failure to open it.
  pub transact-closes_once :
      (w : World) (exc : Option Raised)
      → w.connects ≡ none
      → ((e : Raised)
          → (open_transaction sanitize s w no_connection).1 ≡ err e
          → NotCancelled w.rolls_back)
      → closes (transact sanitize s w exc).0.log ≡ 1
  unfolding transact enter
  transact-closes_once w exc h n =
      let k = opened-Keeps w h in
      whole-closes w exc (open_transaction sanitize s w no_connection) n k.held k.none_closed

  -- If opening a transaction fails once it has begun, and a cancellation arrives in the rollback that
  -- follows, the connection is not given back: after the rollback no further call is made, and the
  -- cancellation goes on.
  pub enter_leaks :
      (w : World) (e x : Raised) (c : Connection)
      → open_transaction sanitize s w no_connection ≡ (c, err e)
      → c.in_transaction ≡ true
      → w.rolls_back ≡ some x
      → is_cancellation x ≡ true
      → enter sanitize s w no_connection ≡ (logged rollback c, err x)
  unfolding enter cleanup_on_enter_failure suppress call
  enter_leaks w e x c o t r k = rw (o, t, r, k) refl
