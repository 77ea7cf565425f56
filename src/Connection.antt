-- ===== src/Connection.antt =====
-- What the program awaits on a SQLAlchemy connection, as a log of the calls made: the outcome of each
-- call comes from outside. `suppress` is `contextlib.suppress(Exception)`, and `shielded` is
-- `shield_from_cancellation` of _async/_compat.py.
pub mod Keeps
use dbkit_sql.Prelude.{
  ℕ, suc, Option, none, some, Bool, true, false, List, [], ◌∷◌, ◌++◌, Result, ok, err, String,
  if◌then◌else◌,
}
use dbkit_sql.Errors.{Context}
use dbkit_sql.Errors.Classify.{Raised, database, raw, classify}

pub data Effect : Type 0 where
  connect take_options begin set_statement_timeout set_lock_timeout : Effect
  commit rollback invalidate close : Effect

-- The fields `_conn` and `_trans` of a manager, as far as it asks whether they are None, and the log.
pub record Connection : Type 0 where
  pub connected : Bool
  pub in_transaction : Bool
  pub log : List Effect  -- oldest first

-- An awaited call leaves a state, and returns or raises.
abbrev pub Awaited : Type 0
Awaited = Connection × Result Raised (Unit {0})

-- `is_cancellation`: a cancellation is no `Exception`.
unfoldable pub is_cancellation : Raised → Bool
is_cancellation (database e) = false
is_cancellation (raw r) = r.is_cancellation

-- `except Exception`: classified, unless it is a cancellation
unfoldable pub classified : (String → String) → Context → Raised → Raised
unfolding is_cancellation classify
classified sanitize ctx e = if is_cancellation e then e else database (classify sanitize e ctx)

abbrev outcome : Option Raised → Result Raised (Unit {0})
outcome none = ok tt
outcome (some e) = err e

-- One call, which the log records whatever its outcome.
unfoldable pub call : Effect → Option Raised → Connection → Awaited
call f o c = (record c { log = c.log ++ f ∷ [] }, outcome o)

-- Statements in sequence: an exception skips the rest.
abbrev pub and_then : Awaited → (Connection → Awaited) → Awaited
and_then (c, ok tt) next = next c
and_then (c, err e) next = (c, err e)

-- `try: ... except BaseException as e: handler(e)`
abbrev pub on_error : Awaited → (Raised → Connection → Awaited) → Awaited
on_error (c, ok tt) handler = (c, ok tt)
on_error (c, err e) handler = handler e c

abbrev unless : Bool → Raised → Result Raised (Unit {0})
unless true e = err e
unless false e = ok tt

unfoldable pub suppress : Awaited → Awaited
unfolding is_cancellation
suppress (c, ok tt) = (c, ok tt)
suppress (c, err e) = (c, unless (is_cancellation e) e)

-- The inner task runs to its end; a cancellation of the outer one is raised afterwards.
unfoldable pub shielded : Option Raised → Awaited → Awaited
shielded none a = a
shielded (some interrupt) a = (a.0, err interrupt)

-- `finally`: what the last block raises takes the place of what was raised before.
abbrev pub settle : Result Raised (Unit {0}) → Awaited → Awaited
settle r (c, ok tt) = (c, r)
settle r (c, err e) = (c, err e)

abbrev pub finally : Awaited → (Connection → Awaited) → Awaited
finally (c, r) last = settle r (last c)

-- How often the connection was given back.
abbrev pub closes : List Effect → ℕ
closes [] = 0
closes (close ∷ fs) = suc (closes fs)
closes (_ ∷ fs) = closes fs

abbrev pub commits : List Effect → ℕ
commits [] = 0
commits (commit ∷ fs) = suc (commits fs)
commits (_ ∷ fs) = commits fs
