-- ===== src/Streaming.antt =====
-- `AsyncResultStream` of _async/streaming.py: one connection and one cursor from `__aenter__` to
-- `__aexit__`. The calls awaited on them are kept in a log, and their outcomes come from outside.
-- `stream_mappings` is a generator, so making it calls nothing: the statement is sent with the first row
-- asked for, and closing it awaits nothing: it is given up at its `yield`, before its start or after its
-- end. `sanitize` is `sanitize_message`, `mapper` what `build_mapper` made. Metrics and spans are left out.
pub mod Closing
mod Examples
use dbkit_sql.Prelude.{
  ℕ, suc, ◌+◌, ◌-◌, String, Option, none, some, Bool, true, false, List, [], ◌∷◌, ◌++◌, ltb, Result,
  ok, err, if◌then◌else◌,
}
use dbkit_sql.Errors.{DatabaseError, Context, query_timeout, make}
use dbkit_sql.Errors.Classify.{Raised, database, classify}
use dbkit_sql.Connection.{is_cancellation, classified}

pub data StreamCall : Type 0 where
  connects fetches closes_cursor closes_connection : StreamCall

pub record Stream : Type 0 where
  pub max_duration : Option ℕ
  pub context : Context
  pub has_cursor : Bool
  pub has_connection : Bool
  pub count : ℕ
  pub started_at : ℕ
  pub log : List StreamCall  -- oldest first

abbrev logged : StreamCall → Stream → Stream
logged c s = record s { log = s.log ++ c ∷ [] }

-- What a call of the generator gives.
pub data Fetched (R : Type 0) : Type 0 where
  row : R → Fetched R
  exhausted : Fetched R
  fails : Raised → Fetched R

-- `StopAsyncIteration` apart from errors.
pub data Next (V : Type 0) : Type 0 where
  yields : V → Next V
  stops : Next V
  raises : Raised → Next V

-- `contextlib.suppress(Exception)`: a cancellation goes through.
abbrev pub passes : Option Raised → Option Raised
unfolding is_cancellation
passes none = none
passes (some e) = if is_cancellation e then some e else none

-- The two halves of `_cleanup`, each as far as the handle is there; the first cannot fail.
abbrev pub cursor_closed : Stream → Stream
cursor_closed s = if s.has_cursor then record (logged closes_cursor s) { has_cursor = false } else s

abbrev pub connection_closed : Option Raised → Stream → Stream × Result Raised (Unit {0})
connection_closed none s = (record (logged closes_connection s) { has_connection = false }, ok tt)
connection_closed (some e) s = (logged closes_connection s, err e)

abbrev pub close_connection : Option Raised → Stream → Stream × Result Raised (Unit {0})
close_connection o s = if s.has_connection then connection_closed (passes o) s else (s, ok tt)

-- `_cleanup`, with the outcome of the connection's `close`
unfoldable pub cleanup : Option Raised → Stream → Stream × Result Raised (Unit {0})
cleanup connection s = close_connection connection (cursor_closed s)

module _ (sanitize : String → String) where
  abbrev pub raised_on_enter :
      Raised → Stream × Result Raised (Unit {0}) → Stream × Result Raised (Unit {0})
  raised_on_enter e (s, ok u) = (s, err (classified sanitize s.context e))
  raised_on_enter e (s, err x) = (s, err x)

  -- `__aenter__`: a cancellation is not caught; after an error there is nothing to clean up yet.
  unfoldable pub enter_stream : Option Raised → ℕ → Stream → Stream × Result Raised (Unit {0})
  unfolding cleanup is_cancellation
  enter_stream none now s = (
    record (logged connects s) { has_connection = true; has_cursor = true; started_at = now },
    ok tt,
  )
  enter_stream (some e) now s =
      if is_cancellation e
      then (logged connects s, err e)
      else raised_on_enter e (cleanup none (logged connects s))

  abbrev pub overdue : Stream → ℕ → Bool
  overdue s now = elim s.max_duration [ none ↦ false | some d ↦ ltb d (now - s.started_at) ]

  module _ {R V : Type 0} (mapper : R → Result Raised V) where
    abbrev pub mapped : Result Raised V → Next V
    mapped (ok v) = yields v
    mapped (err e) = raises e

    abbrev pub fetched : Fetched R → Stream → Stream × Next V
    fetched (row r) s = (record s { count = suc s.count }, mapped (mapper r))
    fetched exhausted s = (s, stops)
    fetched (fails e) s = (s, raises (classified sanitize s.context e))

    -- `__anext__` at a clock reading
    unfoldable pub next_row : ℕ → Fetched R → Stream → Stream × Next V
    unfolding is_cancellation
    next_row now f s =
        if overdue s now
        then (
          s,
          raises (database (make query_timeout "stream exceeded max duration" none s.context)),
        )
        else fetched f (logged fetches s)

    abbrev pub resume :
        Stream × Next V
        → (Stream → Stream × List V × Result Raised (Unit {0}))
        → Stream × List V × Result Raised (Unit {0})
    resume (s, yields v) rest = let (s', vs, r) = rest s in (s', v ∷ vs, r)
    resume (s, stops) rest = (s, [], ok tt)
    resume (s, raises e) rest = (s, [], err e)

    -- `async for`: it ends with the stream, with an error, or where the caller leaves it (`break`, and the
    -- end of the list). The values are those that the caller got.
    unfoldable pub iterate :
        List (ℕ × Fetched R) → Stream → Stream × List V × Result Raised (Unit {0})
    unfolding next_row
    iterate [] s = (s, [], ok tt)
    iterate ((now, f) ∷ fs) s = resume (next_row now f s) (λ s'. iterate fs s')

    -- `finally`: what the cleaning up raises takes the place of what was raised before.
    abbrev pub left :
        Result Raised (Unit {0})
        → Stream × Result Raised (Unit {0})
        → Stream × Result Raised (Unit {0})
    left r (s, ok u) = (s, r)
    left r (s, err e) = (s, err e)

    abbrev pub used :
        List (ℕ × Fetched R)
        → Option Raised
        → Stream × Result Raised (Unit {0})
        → Stream × List V × Result Raised (Unit {0})
    unfolding iterate cleanup
    used fs connection (s, err e) = (s, [], err e)
    used fs connection (s, ok u) =
        let (s', vs, r) = iterate fs s in
        let (s'', r') = left r (cleanup connection s') in (s'', vs, r')

    -- `async with` the stream, around the loop
    unfoldable pub use_stream :
        Option Raised
        → ℕ
        → List (ℕ × Fetched R)
        → Option Raised
        → Stream
        → Stream × List V × Result Raised (Unit {0})
    unfolding enter_stream iterate cleanup
    use_stream opens now fs connection s = used fs connection (enter_stream opens now s)

-- `__init__`
unfoldable pub new_stream : Option ℕ → Context → Stream
new_stream max_duration context = record {
  max_duration = max_duration;
  context = context;
  has_cursor = false;
  has_connection = false;
  count = 0;
  started_at = 0;
  log = [];
}
