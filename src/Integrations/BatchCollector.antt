-- ===== src/Integrations/BatchCollector.antt =====
-- `BatchCollector` of integrations/batch.py. Every operation holds the collector's lock to its end, so one
-- operation is one step. The flush callback is a call from outside: `suspends` tells whether it awaits
-- anything that is not ready, `raises` whether it fails if it is let run. `batches` records the calls of
-- the callback. `timer` is whether `_timer` is set, `sleeping` whether a timer task is there that was not
-- cancelled. `_flush_locked` cancels the task of `_timer`, also when it runs in that very task, and the
-- cancellation then reaches the callback where it first suspends; such a callback is taken to let it through.
pub mod Order
pub mod Delay
use dbkit_sql.Prelude.{
  ℕ, suc, Bool, true, false, List, [], ◌∷◌, ◌++◌, length, ltb, leb, not, ◌&&◌, Result, ok, err,
  if◌then◌else◌,
}

-- What became of a call of the callback.
pub data Fate : Type 0 where
  delivered failed interrupted : Fate

pub data CollectorError : Type 0 where
  bad_size collector_closed flush_failed flush_cancelled : CollectorError

pub record Callback : Type 0 where
  pub suspends : Bool
  pub raises : Bool

pub record BatchCollector (A : Type 0) : Type 0 where
  pub max_size : ℕ
  pub buffer : List A
  pub timer : Bool
  pub sleeping : Bool
  pub closed : Bool
  pub batches : List (List A × Fate)  -- oldest first

-- The collector after an operation, and what the operation returned or raised.
abbrev pub Stepped : Type 0 → Type 0
Stepped A = BatchCollector A × Result CollectorError (Unit {0})

-- The fate of a call, in a task that is to be cancelled or not.
unfoldable pub fate_of : Bool → Callback → Fate
fate_of cancelled f =
    if cancelled && f.suspends then interrupted else (if f.raises then failed else delivered)

abbrev pub answer : Fate → Result CollectorError (Unit {0})
answer delivered = ok tt
answer failed = err flush_failed
answer interrupted = err flush_cancelled

module _ {A : Type 0} where
  abbrev pub empty_collector : ℕ → BatchCollector A
  empty_collector max_size = record {
    max_size = max_size;
    buffer = [];
    timer = false;
    sleeping = false;
    closed = false;
    batches = [];
  }

  -- `__init__`
  unfoldable pub new_collector : ℕ → Result CollectorError (BatchCollector A)
  new_collector max_size = if ltb max_size 1 then err bad_size else ok (empty_collector max_size)

  -- `self._timer.cancel()` and `self._timer = None`, where it is set
  abbrev pub disarm : BatchCollector A → BatchCollector A
  disarm b = record b { timer = false; sleeping = b.sleeping && not b.timer }

  abbrev pub hand_over : List A → Fate → BatchCollector A → Stepped A
  hand_over [] f b = (b, ok tt)
  hand_over (x ∷ xs) f b =
      (record b { buffer = []; batches = b.batches ++ (x ∷ xs, f) ∷ [] }, answer f)

  -- `_flush_locked`, in the timer's own task or in another
  unfoldable pub flush_locked : Bool → Callback → BatchCollector A → Stepped A
  unfolding fate_of
  flush_locked in_timer f b = hand_over b.buffer (fate_of (in_timer && b.timer) f) (disarm b)

  abbrev pub append : A → BatchCollector A → BatchCollector A
  append x b = record b { buffer = b.buffer ++ x ∷ [] }

  abbrev pub arm : BatchCollector A → BatchCollector A
  arm b = record b { timer = true; sleeping = true }

  abbrev pub added : Callback → BatchCollector A → Stepped A
  unfolding flush_locked
  added f b =
      if leb b.max_size (length b.buffer)
      then flush_locked false f b
      else (if not b.timer then (arm b, ok tt) else (b, ok tt))

  unfoldable pub add : A → Callback → BatchCollector A → Stepped A
  unfolding added
  add x f b = if b.closed then (b, err collector_closed) else added f (append x b)

  unfoldable pub flush : Callback → BatchCollector A → Stepped A
  unfolding flush_locked
  flush f b = flush_locked false f b

  unfoldable pub close_collector : Callback → BatchCollector A → Stepped A
  unfolding flush_locked
  close_collector f b = flush_locked false f (record b { closed = true })

  -- `_timer_flush` once its sleep is over, if there is such a task; it ends with the flush.
  abbrev pub woken : BatchCollector A → BatchCollector A
  woken b = record b { sleeping = false }

  unfoldable pub timer_flush : Callback → BatchCollector A → Stepped A
  unfolding flush_locked
  timer_flush f b = if b.sleeping then flush_locked true f (woken b) else (b, ok tt)

-- What happens to a collector over time.
pub data CollectorEvent (A : Type 0) : Type 0 where
  adds : A → Callback → CollectorEvent A
  flushes : Callback → CollectorEvent A
  closes : Callback → CollectorEvent A
  elapses : Callback → CollectorEvent A

module _ {A : Type 0} where
  unfoldable pub collector_step : CollectorEvent A → BatchCollector A → BatchCollector A
  collector_step (adds x f) b = (add x f b).0
  collector_step (flushes f) b = (flush f b).0
  collector_step (closes f) b = (close_collector f b).0
  collector_step (elapses f) b = (timer_flush f b).0

  unfoldable pub collector_run : List (CollectorEvent A) → BatchCollector A → BatchCollector A
  collector_run [] b = b
  collector_run (e ∷ es) b = collector_run es (collector_step e b)
