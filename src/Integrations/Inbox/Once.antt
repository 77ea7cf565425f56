-- ===== src/Integrations/Inbox/Once.antt =====
-- Exactly once: deliveries may be repeated and may fail anywhere.
use dbkit_sql.Prelude.{
  ℕ, zero, suc, ◌+◌, ◌≤◌, ◌<◌, ◌≡◌, refl, sym, ap, ◌∙◌, subst, Option, none, some, Bool, true,
  false, List, [], ◌∷◌, string_eq, ◌↔◌, ◌⊎◌, inl, inr, Result, ok, err, arith, if◌then◌else◌,
  Bool-cases,
}
use dbkit_sql.Errors.Classify.{Raised, database, raw}
use dbkit_sql.Integrations.{
  Ending, committed, rejected, applied_with, lost, after_block, transaction,
}
use dbkit_sql.Integrations.Inbox.{
  Message, same_message, Store, is_known, claim, Call, ack, retry, dead_letter, Delivery, if_first,
  process_once, respond, ack_after_commit, record_call, deliver_all, empty_store,
}

same_message_iff : (a b : Message) → (same_message a b ≡ true) ↔ (a ≡ b)
unfolding same_message
same_message_iff a b =
    ground
      (arith, string_eq.eqb_iff a.consumer b.consumer, string_eq.eqb_iff a.message_id b.message_id)

-- How often a message stands in a list.
abbrev pub times : Message → List Message → ℕ
times m [] = 0
times m (x ∷ xs) = (if same_message x m then 1 else 0) + times m xs

is_known-times : (m : Message) (xs : List Message) → (is_known m xs ≡ false) ↔ (times m xs ≡ 0)
unfolding is_known
is_known-times m [] = ground arith
is_known-times m (x ∷ xs) = ground (arith, is_known-times m xs)

abbrev claimed : Message → Store → Store
claimed m s = record { inbox = m ∷ s.inbox; applied = m ∷ s.applied }

-- What a delivery may do to the store.
abbrev Processed : Message → Store → Store × Result Raised (Unit {0}) → Type 0
Processed m s (s', r) =
    ((s' ≡ s) × (r ≡ ok tt → is_known m s.inbox ≡ true))
    ⊎ ((is_known m s.inbox ≡ false) × (s' ≡ claimed m s))

-- After the claim, whether the message was known or not.
by_claim :
    (m : Message) (s : Store) (w : Option Raised) (e : Ending) (known : Bool)
    → is_known m s.inbox ≡ known
    → Processed m s (
        after_block e s (
          if_first m w
            (if known then (s, ok false) else (record s { inbox = m ∷ s.inbox }, ok true))))
by_claim m s w committed true h = inl (refl, λ _. h)
by_claim m s w (rejected x) true h = inl (refl, λ g. cc)
by_claim m s w (applied_with x) true h = inl (refl, λ g. cc)
by_claim m s w (lost true) true h = inl (refl, λ g. cc)
by_claim m s w (lost false) true h = inl (refl, λ g. cc)
by_claim m s (some x) e false h = inl (refl, λ g. cc)
by_claim m s none committed false h = inr (h, refl)
by_claim m s none (rejected x) false h = inl (refl, λ g. cc)
by_claim m s none (applied_with x) false h = inr (h, refl)
by_claim m s none (lost true) false h = inr (h, refl)
by_claim m s none (lost false) false h = inl (refl, λ g. cc)

process_once-Processed : (d : Delivery) (s : Store) → Processed d.message s (process_once d s)
unfolding process_once transaction claim
process_once-Processed d s = by_outcomes d.opens d.claims
  where
    by_outcomes :
        (o c : Option Raised)
        → Processed d.message s
            (transaction o d.ends (λ t. if_first d.message d.works (claim d.message c t)) s)
    by_outcomes (some x) c = inl (refl, λ g. cc)
    by_outcomes none (some x) = inl (refl, λ g. cc)
    by_outcomes none none = by_claim d.message s d.works d.ends (is_known d.message s.inbox) refl

-- Only a transaction that ended well is followed by the acknowledgement.
respond-ack : (d : Delivery) (r : Result Raised (Unit {0})) → (respond d r).0 ≡ some ack → r ≡ ok tt
unfolding respond
respond-ack d (ok tt) h = refl
respond-ack d (err (raw x)) h = cc
respond-ack d (err (database e)) h = ground arith

-- How often the broker was told that a message is done.
abbrev pub acks : Message → List (Message × Call) → ℕ
acks m [] = 0
acks m ((x, ack) ∷ log) = (if same_message x m then 1 else 0) + acks m log
acks m ((x, retry) ∷ log) = acks m log
acks m ((x, dead_letter) ∷ log) = acks m log

-- The store and the calls made so far, for one message.
abbrev Settled : Message → Store → List (Message × Call) → Type 0
Settled m s log =
    (s.inbox ≡ s.applied) × (times m s.applied ≤ 1) × (0 < acks m log → times m s.applied ≡ 1)

acks-other :
    (m x : Message) (c : Option Call) (log : List (Message × Call))
    → same_message x m ≡ false
    → acks m (record_call x c log) ≡ acks m log
acks-other m x none log h = refl
acks-other m x (some ack) log h = ground arith
acks-other m x (some retry) log h = refl
acks-other m x (some dead_letter) log h = refl

ack_cases :
    (m x : Message) (c : Option Call) (log : List (Message × Call))
    → (c ≡ some ack) ⊎ (acks m (record_call x c log) ≡ acks m log)
ack_cases m x none log = inr refl
ack_cases m x (some ack) log = inl refl
ack_cases m x (some retry) log = inr refl
ack_cases m x (some dead_letter) log = inr refl

module _ (m x : Message) (s : Store) (c : Option Call) (log : List (Message × Call)) where
  -- A store that stays: an acknowledgement needs that the message was known.
  Settled-same :
      (c ≡ some ack → is_known x s.inbox ≡ true)
      → Settled m s log
      → 0 < acks m (record_call x c log)
      → times m s.applied ≡ 1
  Settled-same known h acked = elim (Bool-cases (same_message x m)) [
    | inr other ↦ h.2 (subst (λ n. 0 < n) (acks-other m x c log other) acked)
    | inl same ↦ elim (ack_cases m x c log) [
      | inr e ↦ h.2 (subst (λ n. 0 < n) e acked)
      | inl e ↦
          let k : is_known m s.inbox ≡ true =
            subst (λ y. is_known y s.inbox ≡ true) ((same_message_iff x m).0 same) (known e) in
          let stands = ap (times m) h.0 in ground (arith, is_known-times m s.inbox)
    ]
  ]

  times-claimed :
      is_known x s.inbox ≡ false
      → Settled m s log
      → (times m (x ∷ s.applied) ≤ 1)
        × (0 < acks m (record_call x c log) → times m (x ∷ s.applied) ≡ 1)
  times-claimed new h = elim (Bool-cases (same_message x m)) [
    | inr other ↦ rw other (
      omega (arith, h.1),
      λ acked. omega (arith, h.2 (subst (λ n. 0 < n) (acks-other m x c log other) acked)),
    )
    | inl same ↦
        let k : is_known m s.inbox ≡ false =
          subst (λ y. is_known y s.inbox ≡ false) ((same_message_iff x m).0 same) new in
        let none_yet : times m s.applied ≡ 0 =
          sym (ap (times m) h.0) ∙ (is_known-times m s.inbox).0 k in
        rw same (omega (arith, none_yet), λ acked. omega (arith, none_yet))
  ]

  Settled-after :
      (r : Store × Result Raised (Unit {0}))
      → Processed x s r
      → (c ≡ some ack → r.1 ≡ ok tt)
      → Settled m s log
      → Settled m r.0 (record_call x c log)
  Settled-after (s', r) (inl (e, known)) acked h =
      rw e (h.0, h.1, Settled-same (λ a. known (acked a)) h)
  Settled-after (s', r) (inr (new, e)) acked h =
      let t = times-claimed new h in rw e (ap (◌∷◌ x) h.0, t.0, t.1)

step-Settled :
    (m : Message) (d : Delivery) (s : Store) (log : List (Message × Call))
    → Settled m s log
    → Settled m (ack_after_commit d s).0 (record_call d.message (ack_after_commit d s).1 log)
unfolding ack_after_commit
step-Settled m d s log h =
    let r = process_once d s in
    Settled-after m d.message s (respond d r.1).0 log r (process_once-Processed d s)
      (respond-ack d r.1) h

run-Settled :
    (m : Message) (ds : List Delivery) (s : Store) (log : List (Message × Call))
    → Settled m s log
    → Settled m (deliver_all ds s log).0 (deliver_all ds s log).1
unfolding deliver_all
run-Settled m [] s log h = h
run-Settled m (d ∷ ds) s log h =
    run-Settled m ds (ack_after_commit d s).0 _ (step-Settled m d s log h)

-- Exactly once: whatever is delivered and redelivered, in whatever order, and whichever calls fail
-- meanwhile, commits of unknown outcome included, the writes of a message are applied at most once; and
-- unless the broker was never told that the message is done, they are applied once.
pub deliver_all-once :
    (m : Message) (ds : List Delivery)
    → let r = deliver_all ds empty_store [] in
      (times m r.0.applied ≤ 1) × ((acks m r.1 ≡ 0) ⊎ (times m r.0.applied ≡ 1))
deliver_all-once m ds =
    let t = run-Settled m ds empty_store [] (refl, omega arith, λ h. absurd (omega arith)) in
    (t.1, told (acks m (deliver_all ds empty_store []).1) refl t.2)
  where
    told :
        (n : ℕ)
        → acks m (deliver_all ds empty_store []).1 ≡ n
        → (0 < acks m (deliver_all ds empty_store []).1
            → times m (deliver_all ds empty_store []).0.applied ≡ 1)
        → (acks m (deliver_all ds empty_store []).1 ≡ 0)
          ⊎ (times m (deliver_all ds empty_store []).0.applied ≡ 1)
    told zero e once = inl e
    told (suc n) e once = inr (once (omega arith))
