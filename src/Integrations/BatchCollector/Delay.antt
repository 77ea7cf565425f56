-- ===== src/Integrations/BatchCollector/Delay.antt =====
-- How long an item waits in a collector, and what the timer does to it.
use mathlib.Core.List.{append-nil}
use dbkit_sql.Prelude.{
  ◌⊎◌, inl, inr, ℕ, ◌≤◌, ◌<◌, ◌≡◌, refl, subst, sym, ap, ◌∙◌, ◌≢◌, Bool, true, false, List, [], ◌∷◌,
  ◌++◌, ◌&&◌, length, length-append, All, All-append, ok, err, arith, if-elim, leb, not,
}
use dbkit_sql.Integrations.BatchCollector.{
  BatchCollector, Stepped, CollectorEvent, Callback, Fate, interrupted, flush_cancelled, adds,
  flushes, closes, elapses, new_collector, empty_collector, collector_step, collector_run,
  flush_locked, hand_over, disarm, append, arm, added, add, flush, close_collector, timer_flush,
  fate_of, woken,
}
use dbkit_sql.Integrations.BatchCollector.Order.{new_collector-ok, handed, step-seen}

paired-disarmed : (s t : Bool) → s ≡ t → (s && not t) ≡ false
paired-disarmed true t h = ground arith
paired-disarmed false t h = refl

module _ {A : Type 0} where
  -- A timer task sleeps while there are items, and none is held once the collector is closed.
  abbrev pub Guarded : List A → Bool → Bool → Type 0
  Guarded [] sleeping closed = Unit
  Guarded (x ∷ xs) sleeping closed = (sleeping ≡ true) × (closed ≡ false)

  pub record Inv (b : BatchCollector A) : Type 0 where
    pub room : length b.buffer < b.max_size
    pub guarded : Guarded b.buffer b.sleeping b.closed
    pub paired : b.sleeping ≡ b.timer
    pub sized : All (λ p. (1 ≤ length p.0) × (length p.0 ≤ b.max_size)) b.batches

  hand_over-Inv :
      (xs : List A) (f : Fate) (b : BatchCollector A)
      → xs ≡ b.buffer
      → b.sleeping ≡ b.timer
      → 1 ≤ b.max_size
      → length xs ≤ b.max_size
      → All (λ p. (1 ≤ length p.0) × (length p.0 ≤ b.max_size)) b.batches
      → Inv (hand_over xs f b).0
  hand_over-Inv [] f b e p m l s = record {
    room = subst (λ ys. length ys < b.max_size) e m;
    guarded = subst (λ ys. Guarded ys b.sleeping b.closed) e tt;
    paired = p;
    sized = s;
  }
  hand_over-Inv (x ∷ xs) f b e p m l s = record {
    room = m;
    guarded = tt;
    paired = p;
    sized = All-append _ b.batches _ s ((omega arith, l), tt);
  }

  flush_locked-Inv :
      (t : Bool) (f : Callback) (b : BatchCollector A)
      → (b.sleeping && not b.timer) ≡ false
      → 1 ≤ b.max_size
      → length b.buffer ≤ b.max_size
      → All (λ p. (1 ≤ length p.0) × (length p.0 ≤ b.max_size)) b.batches
      → Inv (flush_locked t f b).0
  unfolding flush_locked
  flush_locked-Inv t f b p = hand_over-Inv b.buffer (fate_of (t && b.timer) f) (disarm b) refl p

  Guarded-armed : (xs : List A) → Guarded xs true false
  Guarded-armed [] = tt
  Guarded-armed (x ∷ xs) = (refl, refl)

  abbrev HasRoom : BatchCollector A → Type 0
  HasRoom b = leb b.max_size (length b.buffer) ≡ false

  armed-Inv :
      (b : BatchCollector A)
      → b.closed ≡ false
      → b.sleeping ≡ true
      → b.sleeping ≡ b.timer
      → length b.buffer < b.max_size
      → All (λ p. (1 ≤ length p.0) × (length p.0 ≤ b.max_size)) b.batches
      → Inv b
  armed-Inv b active armed paired room sized = record {
    room = room;
    guarded =
        subst (λ t. Guarded b.buffer t b.closed) (sym armed)
          (subst (λ c. Guarded b.buffer true c) (sym active) (Guarded-armed b.buffer));
    paired = paired;
    sized = sized;
  }

  added-Inv :
      (x : A) (f : Callback) (b : BatchCollector A)
      → b.closed ≡ false
      → Inv b
      → Inv (added f (append x b)).0
  unfolding added
  added-Inv x f b active v =
      let grown = length-append b.buffer (x ∷ []) in
      if-elim (λ (r : Stepped A). Inv r.0) (leb b.max_size (length (b.buffer ++ x ∷ [])))
        (λ full.
          flush_locked-Inv false f (append x b) (paired-disarmed _ _ v.paired) (omega arith)
            (omega arith) v.sized)
        (λ room.
          if-elim (λ (r : Stepped A). Inv r.0) (not b.timer)
            (λ idle. armed-Inv (arm (append x b)) active refl refl (ground arith) v.sized)
            (λ armed.
              armed-Inv (append x b) active (ground (arith, armed, v.paired)) v.paired
                (ground arith) v.sized))

  pub step-Inv : (e : CollectorEvent A) (b : BatchCollector A) → Inv b → Inv (collector_step e b)
  unfolding collector_step add flush close_collector timer_flush
  step-Inv (adds x f) b v =
      if-elim (λ (r : Stepped A). Inv r.0) b.closed (λ _. v) (λ active. added-Inv x f b active v)
  step-Inv (flushes f) b v =
      flush_locked-Inv false f b (paired-disarmed _ _ v.paired) (omega (arith, v.room))
        (omega (arith, v.room)) v.sized
  step-Inv (closes f) b v =
      flush_locked-Inv false f (record b { closed = true }) (paired-disarmed _ _ v.paired)
        (omega (arith, v.room)) (omega (arith, v.room)) v.sized
  step-Inv (elapses f) b v =
      if-elim (λ (r : Stepped A). Inv r.0) b.sleeping
        (λ _.
          flush_locked-Inv true f (woken b) refl (omega (arith, v.room)) (omega (arith, v.room))
            v.sized)
        (λ _. v)

  run-Inv : (es : List (CollectorEvent A)) (b : BatchCollector A) → Inv b → Inv (collector_run es b)
  unfolding collector_run
  run-Inv [] b v = v
  run-Inv (e ∷ es) b v = run-Inv es (collector_step e b) (step-Inv e b v)

  -- Whatever happened to a new collector, it holds fewer items than `max_size`, and none once it is
  -- closed; every call of its callback got between 1 and `max_size` items.
  pub run-collector-Inv :
      (max_size : ℕ) (es : List (CollectorEvent A)) (b : BatchCollector A)
      → new_collector max_size ≡ ok b
      → Inv (collector_run es b)
  run-collector-Inv max_size es b h =
      let fresh = new_collector-ok max_size b h in
      subst (λ c. Inv (collector_run es c)) fresh.0
        (run-Inv es (empty_collector max_size)
          (record { room = fresh.1; guarded = tt; paired = refl; sized = tt }))

  timer_flush-lost :
      (xs : List A) (b : BatchCollector A) (f : Callback)
      → b.buffer ≡ xs
      → Guarded xs b.sleeping b.closed
      → b.sleeping ≡ b.timer
      → xs ≢ []
      → f.suspends ≡ true
      → timer_flush f b ≡ (
        record b {
          buffer = [];
          timer = false;
          sleeping = false;
          batches = b.batches ++ (xs, interrupted) ∷ [];
        },
        err flush_cancelled,
      )
  unfolding timer_flush flush_locked fate_of
  timer_flush-lost [] b f e g p n s = absurd (n refl)
  timer_flush-lost (x ∷ xs) b f e g p n s =
      let set : b.timer ≡ true = sym p ∙ g.0 in rw (g.0, set, s) (rw e refl)

  timer_flush-empties :
      (xs : List A) (b : BatchCollector A) (f : Callback)
      → b.buffer ≡ xs
      → Guarded xs b.sleeping b.closed
      → (timer_flush f b).0.buffer ≡ []
  unfolding timer_flush flush_locked
  timer_flush-empties [] b f e g =
      if-elim (λ (r : Stepped A). r.0.buffer ≡ []) b.sleeping (λ _. rw e refl) (λ _. e)
  timer_flush-empties (x ∷ xs) b f e g = rw g.0 (rw e refl)

  Guarded-timer : (xs : List A) (t c : Bool) → Guarded xs t c → (xs ≡ []) ⊎ (t ≡ true)
  Guarded-timer [] t c g = inl refl
  Guarded-timer (x ∷ xs) t c g = inr g.0

  -- No item waits for ever: whatever happened to a new collector, a timer task sleeps while it holds
  -- items, and when its sleep is over, all of them are handed to the callback at once.
  pub run-timer_empties :
      (max_size : ℕ) (es : List (CollectorEvent A)) (b : BatchCollector A) (f : Callback)
      → new_collector max_size ≡ ok b
      → let c = collector_run es b in
        ((c.buffer ≡ []) ⊎ (c.sleeping ≡ true))
        × ((timer_flush f c).0.buffer ≡ [])
        × (handed (timer_flush f c).0.batches ≡ handed c.batches ++ c.buffer)
  unfolding collector_step
  run-timer_empties max_size es b f h =
      let c = collector_run es b in
      let g = (run-collector-Inv max_size es b h).guarded in
      let emptied = timer_flush-empties c.buffer c f refl g in
      let after = (timer_flush f c).0 in
      (
        Guarded-timer c.buffer c.sleeping c.closed g,
        emptied,
        sym (append-nil (handed after.batches))
            ∙ ap (λ ys. handed after.batches ++ ys) (sym emptied)
            ∙ step-seen (elapses f) c
            ∙ append-nil (handed c.batches ++ c.buffer),
      )

  -- Whatever happened to a new collector that holds items: when its timer's sleep is over and the callback
  -- awaits anything, the timer task cancels itself. The callback is interrupted, its task ends with the
  -- cancellation, and the items are gone from the collector.
  pub run-timer_loses :
      (max_size : ℕ) (es : List (CollectorEvent A)) (b : BatchCollector A) (f : Callback)
      → new_collector max_size ≡ ok b
      → (collector_run es b).buffer ≢ []
      → f.suspends ≡ true
      → let c = collector_run es b in
        timer_flush f c ≡ (
          record c {
            buffer = [];
            timer = false;
            sleeping = false;
            batches = c.batches ++ (c.buffer, interrupted) ∷ [];
          },
          err flush_cancelled,
        )
  run-timer_loses max_size es b f h n s =
      let c = collector_run es b in
      let v = run-collector-Inv max_size es b h in
      timer_flush-lost c.buffer c f refl v.guarded v.paired n s
