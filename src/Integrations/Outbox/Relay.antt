-- ===== src/Integrations/Outbox/Relay.antt =====
-- What a relay may lose, repeat and reorder.
use dbkit_sql.Prelude.{
  ℕ, ◌≡◌, refl, sym, ap, ◌∙◌, subst, Option, none, some, Bool, true, false, List, [], ◌∷◌, ◌++◌,
  ◌||◌, ◌⊎◌, inl, inr, Result, ok, err, arith, All, All-append, length, Bool-cases,
}
use mathlib.Core.List.{append-nil, append_assoc}
use dbkit_sql.Errors.Classify.{Raised}
use dbkit_sql.Integrations.{
  Ending, committed, rejected, applied_with, lost, conclude, after_block, transaction,
}
use dbkit_sql.Integrations.Outbox.{
  Row, Outbox, Circumstances, publish_all, is_among, mark_sent, ids, batch, relay, selected,
  drain_table, drain_published, reached, Relayed, drain, OutboxEvent, enqueues, drains, outbox_step,
  outbox_run, empty_outbox, enqueue,
}

-- What is published is the batch from its first row on, and all of it where publishing ends well.
abbrev Prefix : List ℕ → List ℕ → Type 0
Prefix xs ys = (rest : List ℕ) × (xs ++ rest ≡ ys)

abbrev Published : List ℕ → List ℕ × Result Raised (Unit {0}) → Type 0
Published all r = Prefix r.0 all × (r.1 ≡ ok tt → r.0 ≡ all)

publish_all-Published :
    (p : ℕ → Option Raised) (rs : List Row) (out : List ℕ)
    → Published (out ++ ids rs) (publish_all p rs out)
unfolding publish_all
publish_all-Published p [] out = (([], refl), λ _. sym (append-nil out))
publish_all-Published p (r ∷ rs) out =
    elim (p r.id)
      as (λ o.
        Published (out ++ r.id ∷ ids rs)
          (elim o [ none ↦ publish_all p rs (out ++ r.id ∷ []) | some e ↦ (out, err e) ])) [
            | none ↦
                subst (λ all. Published all (publish_all p rs (out ++ r.id ∷ [])))
                  (append_assoc out (r.id ∷ []) (ids rs))
                  (publish_all-Published p rs (out ++ r.id ∷ []))
            | some e ↦ ((r.id ∷ ids rs, refl), λ h. cc)
          ]

mark_sent-nil : (rs : List Row) → mark_sent [] rs ≡ rs
unfolding mark_sent is_among
mark_sent-nil [] = refl
mark_sent-nil (r ∷ rs) =
    ap (λ b. record r { sent = b } ∷ mark_sent [] rs) (or_false r.sent)
    ∙ ap (◌∷◌ r) (mark_sent-nil rs)
  where
    or_false : (b : Bool) → b || false ≡ b
    or_false true = refl
    or_false false = refl

abbrev pub mark : List Row → Outbox → Outbox
mark rs o = record o { rows = mark_sent (ids rs) o.rows }

-- Either nothing is marked, or the whole batch is, which was published before.
abbrev pub Drained : List Row → Outbox → List ℕ → Outbox × Result Raised ℕ → Type 0
Drained rs o out (o', r) =
    Prefix out (ids rs)
    × ((o' ≡ o) ⊎ ((o' ≡ mark rs o) × (out ≡ ids rs)))
    × ((k : ℕ) → r ≡ ok k → (k ≡ length rs) × (o' ≡ mark rs o) × (out ≡ ids rs))

Drained-none :
    (rs : List Row) (o : Outbox) (out : List ℕ) (e : Raised)
    → Prefix out (ids rs)
    → Drained rs o out (o, err e)
Drained-none rs o out e p = (p, inl refl, λ k h. cc)

Drained-conclude :
    (rs : List Row) (o : Outbox) (out : List ℕ) (e : Ending)
    → out ≡ ids rs
    → Drained rs o out (conclude e o (mark rs o) (length rs))
Drained-conclude rs o out committed p =
    (([], append-nil out ∙ p), inr (refl, p), λ k h. (ground arith, refl, p))
Drained-conclude rs o out (rejected x) p = (([], append-nil out ∙ p), inl refl, λ k h. cc)
Drained-conclude rs o out (applied_with x) p = (([], append-nil out ∙ p), inr (refl, p), λ k h. cc)
Drained-conclude rs o out (lost true) p = (([], append-nil out ∙ p), inr (refl, p), λ k h. cc)
Drained-conclude rs o out (lost false) p = (([], append-nil out ∙ p), inl refl, λ k h. cc)

prefix_of_nil : (xs : List ℕ) → Prefix xs [] → xs ≡ []
prefix_of_nil [] p = refl
prefix_of_nil (x ∷ xs) (rest, e) = cc

-- Publishing, marking and committing, once the rows are selected.
relay-Drained :
    (rs : List Row) (o : Outbox) (out : List ℕ) (r : Result Raised (Unit {0})) (u : Option Raised)
    (e : Ending)
    → Published (ids rs) (out, r)
    → Drained rs o out (after_block e o (relay rs r u o))
relay-Drained [] o out r u e p =
    let same : mark [] o ≡ o = ap (λ rs. record o { rows = rs }) (mark_sent-nil o.rows) in
    subst (λ o'. Drained [] o out (conclude e o o' 0)) same
      (Drained-conclude [] o out e (prefix_of_nil out p.0))
relay-Drained (x ∷ xs) o out (err a) u e p = Drained-none (x ∷ xs) o out a p.0
relay-Drained (x ∷ xs) o out (ok v) (some a) e p = Drained-none (x ∷ xs) o out a p.0
relay-Drained (x ∷ xs) o out (ok v) none e p = Drained-conclude (x ∷ xs) o out e (p.1 refl)

-- A drain publishes the first `batch_size` unsent rows that no other relay has locked, in the order of
-- their ids, and stops at the first that fails. Either it marks nothing, or it marks just these rows as
-- sent, and then it has published all of them. If it returns a count, that is their number, and they are
-- published and marked.
pub drain_table-Drained :
    (batch_size : ℕ) (w : Circumstances) (o : Outbox)
    → Drained (batch batch_size w o) o (drain_published batch_size w o) (drain_table batch_size w o)
unfolding drain_table drain_published transaction
drain_table-Drained batch_size w o = by_outcomes w.opens w.selects
  where
    rs : List Row
    rs = batch batch_size w o

    sent_out : List ℕ × Result Raised (Unit {0})
    sent_out = publish_all w.publishes rs []

    by_outcomes :
        (a b : Option Raised)
        → Drained rs o (reached a b sent_out.0) (
            transaction a w.ends
              (λ o'.
                selected b
                  (batch batch_size w o')
                  (publish_all w.publishes (batch batch_size w o') []).1
                  w.updates
                  o')
              o)
    by_outcomes (some e) b = Drained-none rs o [] e (ids rs, refl)
    by_outcomes none (some e) = Drained-none rs o [] e (ids rs, refl)
    by_outcomes none none =
        relay-Drained rs o sent_out.0 sent_out.1 w.updates w.ends
          (publish_all-Published w.publishes rs [])

-- A row that is marked as sent was published.
abbrev pub IsPublished : List ℕ → Row → Type 0
IsPublished broker r = r.sent ≡ true → is_among r.id broker ≡ true

is_among-append :
    (k : ℕ) (xs ys : List ℕ) → is_among k (xs ++ ys) ≡ (is_among k xs || is_among k ys)
unfolding is_among
is_among-append k [] ys = refl
is_among-append k (x ∷ xs) ys = ground (arith, is_among-append k xs ys)

IsPublished-more :
    (broker out : List ℕ) (rs : List Row)
    → All (IsPublished broker) rs
    → All (IsPublished (broker ++ out)) rs
IsPublished-more broker out [] h = tt
IsPublished-more broker out (r ∷ rs) h = (
  λ s. ground (arith, h.0 s, is_among-append r.id broker out),
  IsPublished-more broker out rs h.1,
)

IsPublished-mark :
    (broker out : List ℕ) (rs : List Row)
    → All (IsPublished broker) rs
    → All (IsPublished (broker ++ out)) (mark_sent out rs)
unfolding mark_sent
IsPublished-mark broker out [] h = tt
IsPublished-mark broker out (r ∷ rs) h = (
  λ s. elim (Bool-cases r.sent) [
    | inl old ↦ ground (arith, h.0 old, is_among-append r.id broker out)
    | inr new ↦ ground (arith, is_among-append r.id broker out)
  ],
  IsPublished-mark broker out rs h.1,
)

step-IsPublished :
    (e : OutboxEvent) (s : Relayed)
    → All (IsPublished s.broker) s.outbox.rows
    → All (IsPublished (outbox_step e s).broker) (outbox_step e s).outbox.rows
unfolding outbox_step enqueue drain
step-IsPublished (enqueues topic payload) s h =
    All-append (IsPublished s.broker) s.outbox.rows _ h (λ x. cc, tt)
step-IsPublished (drains n w) s h = by_marks (drain_table-Drained n w s.outbox).1
  where
    out : List ℕ
    out = drain_published n w s.outbox

    by_marks :
        ((drain_table n w s.outbox).0 ≡ s.outbox)
          ⊎ (((drain_table n w s.outbox).0 ≡ mark (batch n w s.outbox) s.outbox)
              × (out ≡ ids (batch n w s.outbox)))
        → All (IsPublished (s.broker ++ out)) (drain_table n w s.outbox).0.rows
    by_marks (inl e) =
        subst (λ o. All (IsPublished (s.broker ++ out)) o.rows) (sym e)
          (IsPublished-more s.broker out s.outbox.rows h)
    by_marks (inr (e, p)) =
        subst (λ o. All (IsPublished (s.broker ++ out)) o.rows) (sym e)
          (subst (λ is. All (IsPublished (s.broker ++ out)) (mark_sent is s.outbox.rows)) p
            (IsPublished-mark s.broker out s.outbox.rows h))

run-IsPublished :
    (es : List OutboxEvent) (s : Relayed)
    → All (IsPublished s.broker) s.outbox.rows
    → All (IsPublished (outbox_run es s).broker) (outbox_run es s).outbox.rows
unfolding outbox_run
run-IsPublished [] s h = h
run-IsPublished (e ∷ es) s h = run-IsPublished es (outbox_step e s) (step-IsPublished e s h)

-- At least once: whatever is enqueued and drained, in whatever order, by however many relays, and
-- whichever calls fail meanwhile, every row that is marked as sent has been published.
pub outbox_run-IsPublished :
    (es : List OutboxEvent)
    → All (IsPublished (outbox_run es empty_outbox).broker) (outbox_run es empty_outbox).outbox.rows
outbox_run-IsPublished es = run-IsPublished es empty_outbox tt
