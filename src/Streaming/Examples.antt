-- ===== src/Streaming/Examples.antt =====
-- The theorems on streams applied to one of two rows.
use dbkit_sql.Prelude.{◌≡◌, ◌↔◌, ℕ, String, none, some, List, [], ◌∷◌, Result, ok, true, false}
use dbkit_sql.Errors.{database_error, make, no_context}
use dbkit_sql.Errors.Classify.{Raised, database, raw, not_sqlalchemy, absent, missing}
use dbkit_sql.Streaming.{Fetched, row, fails, new_stream, use_stream, passes}
use dbkit_sql.Streaming.Closing.{closings, use_stream-closes_once}

abbrev unchanged : String → String
unchanged s = s

abbrev plain_row : ℕ → Result Raised ℕ
plain_row n = ok n

abbrev failure : Raised
failure = database (make database_error "broken" none no_context)

abbrev cancelled : Raised
cancelled = raw (record {
  is_timeout = false;
  is_os_error = false;
  is_cancellation = true;
  sqlalchemy = not_sqlalchemy;
  own = record { sqlstate = absent; pgcode = absent; diagnostics = missing };
  orig = none;
  connection_invalidated = false;
  message = "";
})

-- A row, and then the connection breaks.
abbrev answers : List (ℕ × Fetched ℕ)
answers = (5, row 7) ∷ (6, fails failure) ∷ []

use_stream-closes_once_example :
    let t =
      (use_stream unchanged plain_row none 4 answers
        (some cancelled)
        (new_stream (some 100) no_context)).0 in
    (closings t.log ≡ 1) × ((t.has_connection ≡ false) ↔ (passes (some cancelled) ≡ none))
use_stream-closes_once_example =
    use_stream-closes_once unchanged plain_row 4 answers (some cancelled) (some 100) no_context
