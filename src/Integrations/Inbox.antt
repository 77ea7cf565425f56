-- ===== src/Integrations/Inbox.antt =====
-- integrations/inbox.py: a message is claimed in the inbox table in the transaction of its business
-- writes. The store is what is committed: the inbox rows, and for each message whose writes are applied
-- an entry of `applied`. PostgreSQL lets a second insert of a key wait for the transaction that inserted
-- it, so deliveries of one message come one after another. The outcomes of all awaited calls are given
-- with the delivery.
pub mod Once
use dbkit_sql.Prelude.{
  ℕ, String, Option, none, some, Bool, true, false, List, [], ◌∷◌, ◌++◌, ◌&&◌, ◌||◌, not, ◌==◌,
  string_eq, Result, ok, err, if◌then◌else◌,
}
use dbkit_sql.Errors.{DatabaseError, ErrorClass, commit_unknown}
use dbkit_sql.Errors.Classify.{Raised, database, raw}
use dbkit_sql.Integrations.{Ending, transaction}

-- The key of the inbox table.
pub record Message : Type 0 where
  pub consumer : String
  pub message_id : String

unfoldable pub same_message : Message → Message → Bool
same_message a b = a.consumer == b.consumer && a.message_id == b.message_id

pub record Store : Type 0 where
  pub inbox : List Message
  pub applied : List Message

unfoldable pub is_known : Message → List Message → Bool
is_known m [] = false
is_known m (x ∷ xs) = same_message x m || is_known m xs

-- `INSERT ... ON CONFLICT DO NOTHING RETURNING 1`: `_claim`
unfoldable pub claim : Message → Option Raised → Store → Store × Result Raised Bool
unfolding is_known
claim m (some e) s = (s, err e)
claim m none s =
    if is_known m s.inbox then (s, ok false) else (record s { inbox = m ∷ s.inbox }, ok true)

-- The callbacks that were called.
pub data Call : Type 0 where
  ack retry dead_letter : Call

pub record Delivery : Type 0 where
  pub message : Message
  pub opens : Option Raised
  pub claims : Option Raised
  pub works : Option Raised
  pub ends : Ending
  pub has_retry : Bool
  pub has_dead_letter : Bool
  pub calls : Option Raised  -- the outcome of the callback

-- `work(tx)`: a failure may leave the writes in the transaction, which is then rolled back.
abbrev pub work : Message → Option Raised → Store → Store × Result Raised (Unit {0})
work m none s = (record s { applied = m ∷ s.applied }, ok tt)
work m (some e) s = (record s { applied = m ∷ s.applied }, err e)

abbrev pub if_first :
    Message → Option Raised → Store × Result Raised Bool → Store × Result Raised (Unit {0})
if_first m o (s, ok true) = work m o s
if_first m o (s, ok false) = (s, ok tt)
if_first m o (s, err e) = (s, err e)

-- The block of `process_once` with the work of `ack_after_commit` in it.
unfoldable pub process_once : Delivery → Store → Store × Result Raised (Unit {0})
unfolding claim transaction
process_once d =
    transaction d.opens d.ends (λ s. if_first d.message d.works (claim d.message d.claims s))

abbrev is_commit_unknown : ErrorClass → Bool
is_commit_unknown commit_unknown = true
is_commit_unknown _ = false

abbrev returns : Bool → Option Raised → Result Raised Bool
returns b none = ok b
returns b (some e) = err e

-- What follows the transaction: the callback called, and what the function returns or raises.
unfoldable pub respond : Delivery → Result Raised (Unit {0}) → Option Call × Result Raised Bool
respond d (ok tt) = (some ack, returns true d.calls)
respond d (err (raw r)) = (none, err (raw r))
respond d (err (database e)) =
    if is_commit_unknown e.cls
    then (none, err (database e))
    else (if e.retryable && d.has_retry
        then (some retry, returns false d.calls)
        else (if not e.retryable && d.has_dead_letter
            then (some dead_letter, returns false d.calls)
            else (none, err (database e))))

-- `ack_after_commit`
unfoldable pub ack_after_commit : Delivery → Store → Store × Option Call × Result Raised Bool
unfolding process_once respond
ack_after_commit d s =
    let (s', r) = process_once d s in let (call, result) = respond d r in (s', call, result)

abbrev pub record_call : Message → Option Call → List (Message × Call) → List (Message × Call)
record_call m none log = log
record_call m (some c) log = (m, c) ∷ log

-- Deliveries and redeliveries in a row; the calls made, the last one first.
unfoldable pub deliver_all :
    List Delivery → Store → List (Message × Call) → Store × List (Message × Call)
deliver_all [] s log = (s, log)
deliver_all (d ∷ ds) s log =
    let (s', call, r) = ack_after_commit d s in deliver_all ds s' (record_call d.message call log)

abbrev pub empty_store : Store
empty_store = record { inbox = []; applied = [] }
