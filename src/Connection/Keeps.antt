-- ===== src/Connection/Keeps.antt =====
-- Calls that keep a connection in hand, and calls whose failure is suppressed.
use dbkit_sql.Prelude.{
  ◌+◌, Option, none, some, Bool, true, false, ◌≡◌, refl, ◌∙◌, List, [], ◌∷◌, ◌++◌, Result, ok, err,
  arith, if◌then◌else◌,
}
use dbkit_sql.Errors.Classify.{Raised}
use dbkit_sql.Connection.{
  Connection, Awaited, Effect, connect, take_options, begin, set_statement_timeout,
  set_lock_timeout, commit, rollback, invalidate, close, call, and_then, on_error, suppress,
  shielded, is_cancellation, closes,
}

-- These calls leave the connection in the manager's hands and give nothing back.
pub record Keeps (c : Connection) (a : Awaited) : Type 0 where
  pub held : a.0.connected ≡ c.connected
  pub none_closed : closes a.0.log ≡ closes c.log

pub closes-append :
    (fs : List Effect) (f : Effect) → closes (fs ++ f ∷ []) ≡ closes fs + closes (f ∷ [])
closes-append [] f = omega arith
closes-append (close ∷ fs) f = omega (arith, closes-append fs f)
closes-append (connect ∷ fs) f = closes-append fs f
closes-append (take_options ∷ fs) f = closes-append fs f
closes-append (begin ∷ fs) f = closes-append fs f
closes-append (set_statement_timeout ∷ fs) f = closes-append fs f
closes-append (set_lock_timeout ∷ fs) f = closes-append fs f
closes-append (commit ∷ fs) f = closes-append fs f
closes-append (rollback ∷ fs) f = closes-append fs f
closes-append (invalidate ∷ fs) f = closes-append fs f

pub done-Keeps : (c : Connection) (r : Result Raised (Unit {0})) → Keeps c (c, r)
done-Keeps c r = record { held = refl; none_closed = refl }

pub call-Keeps :
    (f : Effect) (o : Option Raised) (c : Connection) → closes (f ∷ []) ≡ 0 → Keeps c (call f o c)
unfolding call
call-Keeps f o c h = record { held = refl; none_closed = omega (arith, closes-append c.log f) }

pub after-Keeps :
    (c c' : Connection) (r : Result Raised (Unit {0})) (b : Awaited)
    → Keeps c (c', r)
    → Keeps c' b
    → Keeps c b
after-Keeps c c' r b h k = record {
  held = k.held ∙ h.held;
  none_closed = k.none_closed ∙ h.none_closed;
}

pub and_then-Keeps :
    (c : Connection) (a : Awaited) (next : Connection → Awaited)
    → Keeps c a
    → ((c' : Connection) → Keeps c' (next c'))
    → Keeps c (and_then a next)
and_then-Keeps c (c', ok tt) next h k = after-Keeps c c' (ok tt) (next c') h (k c')
and_then-Keeps c (c', err e) next h k = h

pub on_error-Keeps :
    (c : Connection) (a : Awaited) (handler : Raised → Connection → Awaited)
    → Keeps c a
    → ((e : Raised) (c' : Connection) → Keeps c' (handler e c'))
    → Keeps c (on_error a handler)
on_error-Keeps c (c', ok tt) handler h k = h
on_error-Keeps c (c', err e) handler h k = after-Keeps c c' (err e) (handler e c') h (k e c')

pub suppress-Keeps : (c : Connection) (a : Awaited) → Keeps c a → Keeps c (suppress a)
unfolding suppress
suppress-Keeps c (c', ok tt) h = h
suppress-Keeps c (c', err e) h = record { held = h.held; none_closed = h.none_closed }

pub shielded-Keeps :
    (o : Option Raised) (c : Connection) (a : Awaited) → Keeps c a → Keeps c (shielded o a)
unfolding shielded
shielded-Keeps none c a h = h
shielded-Keeps (some e) c a h = record { held = h.held; none_closed = h.none_closed }

pub if-Keeps :
    (b : Bool) (c : Connection) (x y : Awaited)
    → Keeps c x
    → Keeps c y
    → Keeps c (if b then x else y)
if-Keeps true c x y h k = h
if-Keeps false c x y h k = k

-- No cancellation arrives in this call.
abbrev pub NotCancelled : Option Raised → Type 0
NotCancelled o = (e : Raised) → o ≡ some e → is_cancellation e ≡ false

abbrev pub logged : Effect → Connection → Connection
logged f c = record c { log = c.log ++ f ∷ [] }

pub suppressed :
    (f : Effect) (o : Option Raised) (c : Connection)
    → NotCancelled o
    → suppress (call f o c) ≡ (logged f c, ok tt)
unfolding suppress call
suppressed f none c n = refl
suppressed f (some x) c n = rw (n x refl) refl
