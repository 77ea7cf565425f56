-- ===== src/Streaming/Closing.antt =====
-- The connection of a stream is given back.
use dbkit_sql.Prelude.{
  ℕ, suc, ◌+◌, ◌≡◌, ◌↔◌, refl, sym, subst, ◌∙◌, String, Option, none, some, true, false, List, [],
  ◌∷◌, ◌++◌, Result, ok, err, arith, if-elim, if-true,
}
use dbkit_sql.Errors.{Context}
use dbkit_sql.Errors.Classify.{Raised}
use dbkit_sql.Streaming.{
  Stream, StreamCall, connects, fetches, closes_cursor, closes_connection, Fetched, row, exhausted,
  fails, Next, yields, stops, raises, passes, cleanup, close_connection, connection_closed,
  enter_stream, next_row, iterate, resume, overdue, fetched, left, use_stream, new_stream,
}

-- How often the connection was given back.
abbrev pub closings : List StreamCall → ℕ
closings [] = 0
closings (closes_connection ∷ cs) = suc (closings cs)
closings (_ ∷ cs) = closings cs

closings-append : (xs ys : List StreamCall) → closings (xs ++ ys) ≡ closings xs + closings ys
closings-append [] ys = omega arith
closings-append (connects ∷ xs) ys = closings-append xs ys
closings-append (fetches ∷ xs) ys = closings-append xs ys
closings-append (closes_cursor ∷ xs) ys = closings-append xs ys
closings-append (closes_connection ∷ xs) ys = omega (arith, closings-append xs ys)

-- A stream keeps its handles and gives nothing back.
record Holds (s t : Stream) : Type 0 where
  cursor : t.has_cursor ≡ s.has_cursor
  connection : t.has_connection ≡ s.has_connection
  given : closings t.log ≡ closings s.log

module _ (sanitize : String → String) {R V : Type 0} (mapper : R → Result Raised V) where
  next_row-Holds :
      (now : ℕ) (f : Fetched R) (s : Stream) → Holds s (next_row sanitize mapper now f s).0
  unfolding next_row
  next_row-Holds now f s =
      if-elim (λ (r : Stream × Next V). Holds s r.0) (overdue sanitize s now)
        (λ _. record { cursor = refl; connection = refl; given = refl }) (λ _. by_answer f)
    where
      same : closings (s.log ++ fetches ∷ []) ≡ closings s.log
      same = omega (arith, closings-append s.log (fetches ∷ []))

      by_answer :
          (g : Fetched R)
          → Holds s (fetched sanitize mapper g (record s { log = s.log ++ fetches ∷ [] })).0
      by_answer (row r) = record { cursor = refl; connection = refl; given = same }
      by_answer exhausted = record { cursor = refl; connection = refl; given = same }
      by_answer (fails e) = record { cursor = refl; connection = refl; given = same }

  Holds-trans : (s t u : Stream) → Holds s t → Holds t u → Holds s u
  Holds-trans s t u h k = record {
    cursor = k.cursor ∙ h.cursor;
    connection = k.connection ∙ h.connection;
    given = k.given ∙ h.given;
  }

  iterate-Holds :
      (fs : List (ℕ × Fetched R)) (s : Stream) → Holds s (iterate sanitize mapper fs s).0
  unfolding iterate
  iterate-Holds [] s = record { cursor = refl; connection = refl; given = refl }
  iterate-Holds ((now, f) ∷ fs) s =
      by_next (next_row sanitize mapper now f s) (next_row-Holds now f s) (λ t. iterate-Holds fs t)
    where
      by_next :
          (r : Stream × Next V)
          → Holds s r.0
          → ((t : Stream) → Holds t (iterate sanitize mapper fs t).0)
          → Holds s (resume sanitize mapper r (λ t. iterate sanitize mapper fs t)).0
      by_next (t, yields v) h rest = Holds-trans s t _ h (rest t)
      by_next (t, stops) h rest = h
      by_next (t, raises e) h rest = h

  left-state :
      (r : Result Raised (Unit {0})) (c : Stream × Result Raised (Unit {0}))
      → (left sanitize mapper r c).0 ≡ c.0
  left-state r (s, ok u) = refl
  left-state r (s, err e) = refl

-- The connection's `close` was called so often, and the handle is put away unless a cancellation came through.
abbrev Closes : Option Raised → ℕ → Stream → Type 0
Closes o n t = (closings t.log ≡ n) × ((t.has_connection ≡ false) ↔ (passes o ≡ none))

close_connection-Closes :
    (o : Option Raised) (s : Stream)
    → s.has_connection ≡ true
    → Closes o (suc (closings s.log)) (close_connection o s).0
close_connection-Closes o s h =
    subst (λ r. Closes o (suc (closings s.log)) r.0)
      (sym (if-true (connection_closed (passes o) s) (s, ok tt) h)) (by_outcome (passes o))
  where
    by_outcome :
        (p : Option Raised)
        → (closings (connection_closed p s).0.log ≡ suc (closings s.log))
          × (((connection_closed p s).0.has_connection ≡ false) ↔ (p ≡ none))
    by_outcome none = (omega (arith, closings-append s.log (closes_connection ∷ [])), ground arith)
    by_outcome (some e) =
        (omega (arith, closings-append s.log (closes_connection ∷ [])), ground (arith, h))

cleanup-Closes :
    (o : Option Raised) (s : Stream)
    → s.has_cursor ≡ true
    → s.has_connection ≡ true
    → Closes o (suc (closings s.log)) (cleanup o s).0
unfolding cleanup
cleanup-Closes o s h k =
    let t : Stream = record s { log = s.log ++ closes_cursor ∷ []; has_cursor = false } in
    let same : closings t.log ≡ closings s.log =
      omega (arith, closings-append s.log (closes_cursor ∷ [])) in
    subst (λ c. Closes o (suc (closings s.log)) (close_connection o c).0) (sym (if-true t s h))
      (subst (λ n. Closes o (suc n) (close_connection o t).0) same (close_connection-Closes o t k))

module _ (sanitize : String → String) {R V : Type 0} (mapper : R → Result Raised V) (now : ℕ)
    (fs : List (ℕ × Fetched R)) (connection : Option Raised) (max_duration : Option ℕ)
    (context : Context) where
  entered : Stream
  unfolding new_stream
  entered = record (new_stream max_duration context) {
    log = connects ∷ [];
    has_connection = true;
    has_cursor = true;
    started_at = now;
  }

  -- A stream whose connection could be taken calls the connection's `close` exactly once, whatever the
  -- rows and their mapping do, whichever errors and cancellations arrive meanwhile, and wherever the
  -- caller leaves the loop; and it has put the connection away exactly if no cancellation came out of
  -- that `close`.
  pub use_stream-closes_once :
      let t =
        (use_stream sanitize mapper none now fs connection (new_stream max_duration context)).0 in
      (closings t.log ≡ 1) × ((t.has_connection ≡ false) ↔ (passes connection ≡ none))
  unfolding use_stream enter_stream new_stream entered
  use_stream-closes_once =
      let h = iterate-Holds sanitize mapper fs entered in
      let run = iterate sanitize mapper fs entered in
      let closed = cleanup-Closes connection run.0 h.cursor h.connection in
      subst (Closes connection 1)
        (sym (left-state sanitize mapper run.2 (cleanup connection run.0)))
        (subst (λ n. Closes connection (suc n) (cleanup connection run.0).0) h.given closed)
