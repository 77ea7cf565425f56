-- ===== src/Integrations/Outbox.antt =====
-- integrations/outbox.py: events are rows of the outbox table, and a relay publishes them. The rows stand in
-- the order of their ids, which PostgreSQL gives out rising. A payload is the text that `json.dumps`
-- makes of it. What a drain meets is its `Circumstances`: the rows that other relays have locked, which
-- SKIP LOCKED passes over, and the outcomes of the calls that it awaits.
pub mod Relay
use dbkit_sql.Prelude.{
  ℕ, suc, ◌+◌, String, Option, none, some, Bool, true, false, List, [], ◌∷◌, ◌++◌, map, length,
  take, not, nat_beq, ◌&&◌, ◌||◌, Result, ok, err, if◌then◌else◌,
}
use dbkit_sql.Errors.Classify.{Raised}
use dbkit_sql.Integrations.{Ending, transaction}

pub record Row : Type 0 where
  pub id : ℕ
  pub topic : String
  pub payload : String
  pub sent : Bool

pub record Outbox : Type 0 where
  pub rows : List Row
  pub next_id : ℕ

-- `enqueue`, in the caller's transaction
unfoldable pub enqueue : String → String → Outbox → Outbox × ℕ
enqueue topic payload o = (
  record o {
    rows = o.rows ++ record { id = o.next_id; topic = topic; payload = payload; sent = false } ∷ [];
    next_id = suc o.next_id;
  },
  o.next_id,
)

pub record Circumstances : Type 0 where
  pub locked : ℕ → Bool
  pub opens : Option Raised
  pub selects : Option Raised
  pub publishes : ℕ → Option Raised
  pub updates : Option Raised
  pub ends : Ending

-- `WHERE sent_at IS NULL ORDER BY id FOR UPDATE SKIP LOCKED`
unfoldable pub claimable : (ℕ → Bool) → List Row → List Row
claimable locked [] = []
claimable locked (r ∷ rs) =
    let rest = claimable locked rs in if r.sent || locked r.id then rest else r ∷ rest

-- `for row in rows: await publish(row)`: the ids of the rows that the broker got, and the outcome. A failing
-- call counts as one that the broker did not get.
unfoldable pub publish_all :
    (ℕ → Option Raised) → List Row → List ℕ → List ℕ × Result Raised (Unit {0})
publish_all publishes [] out = (out, ok tt)
publish_all publishes (r ∷ rs) out = elim (publishes r.id) [
  | none ↦ publish_all publishes rs (out ++ r.id ∷ [])
  | some e ↦ (out, err e)
]

unfoldable pub is_among : ℕ → List ℕ → Bool
is_among k [] = false
is_among k (i ∷ is) = nat_beq i k || is_among k is

-- `UPDATE ... SET sent_at = now() WHERE id = ANY(ids)`
unfoldable pub mark_sent : List ℕ → List Row → List Row
unfolding is_among
mark_sent ids rs = map (λ (r : Row). record r { sent = r.sent || is_among r.id ids }) rs

abbrev pub ids : List Row → List ℕ
ids [] = []
ids (r ∷ rs) = r.id ∷ ids rs

abbrev pub batch : ℕ → Circumstances → Outbox → List Row
batch batch_size w o = take batch_size (claimable w.locked o.rows)

abbrev pub marked : List Row → Option Raised → Outbox → Outbox × Result Raised ℕ
marked rs none o = (record o { rows = mark_sent (ids rs) o.rows }, ok (length rs))
marked rs (some e) o = (o, err e)

-- The statements after the SELECT, for its rows and the outcome of publishing them.
abbrev pub relay :
    List Row → Result Raised (Unit {0}) → Option Raised → Outbox → Outbox × Result Raised ℕ
relay [] published updates o = (o, ok 0)
relay (r ∷ rs) (err e) updates o = (o, err e)
relay (r ∷ rs) (ok u) updates o = marked (r ∷ rs) updates o

abbrev pub selected :
    Option Raised
    → List Row
    → Result Raised (Unit {0})
    → Option Raised
    → Outbox
    → Outbox × Result Raised ℕ
selected (some e) rs published updates o = (o, err e)
selected none rs published updates o = relay rs published updates o

-- What a drain does to the table, and what it returns.
unfoldable pub drain_table : ℕ → Circumstances → Outbox → Outbox × Result Raised ℕ
unfolding transaction claimable publish_all mark_sent
drain_table batch_size w = transaction w.opens w.ends (λ o.
    let rs = batch batch_size w o in
    selected w.selects rs (publish_all w.publishes rs []).1 w.updates o)

abbrev pub reached : Option Raised → Option Raised → List ℕ → List ℕ
reached none none out = out
reached (some e) selects out = []
reached none (some e) out = []

-- What a drain publishes, which no rollback takes back.
unfoldable pub drain_published : ℕ → Circumstances → Outbox → List ℕ
unfolding claimable publish_all
drain_published batch_size w o =
    reached w.opens w.selects (publish_all w.publishes (batch batch_size w o) []).0

-- The table and what the broker got, in order.
pub record Relayed : Type 0 where
  pub outbox : Outbox
  pub broker : List ℕ

unfoldable pub drain : ℕ → Circumstances → Relayed → Relayed × Result Raised ℕ
unfolding drain_table drain_published
drain batch_size w s =
    let (o, r) = drain_table batch_size w s.outbox in
    (record { outbox = o; broker = s.broker ++ drain_published batch_size w s.outbox }, r)

pub data OutboxEvent : Type 0 where
  enqueues : String → String → OutboxEvent
  drains : ℕ → Circumstances → OutboxEvent

unfoldable pub outbox_step : OutboxEvent → Relayed → Relayed
unfolding enqueue drain
outbox_step (enqueues topic payload) s = record s { outbox = (enqueue topic payload s.outbox).0 }
outbox_step (drains batch_size w) s = (drain batch_size w s).0

unfoldable pub outbox_run : List OutboxEvent → Relayed → Relayed
outbox_run [] s = s
outbox_run (e ∷ es) s = outbox_run es (outbox_step e s)

abbrev pub empty_outbox : Relayed
empty_outbox = record { outbox = record { rows = []; next_id = 1 }; broker = [] }
