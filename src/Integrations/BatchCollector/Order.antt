-- ===== src/Integrations/BatchCollector/Order.antt =====
-- The order and the bounds of what a collector hands to its callback.
use dbkit_sql.Prelude.{
  ℕ, ◌&&◌, ◌≤◌, ◌≡◌, refl, sym, ap, subst, ◌∙◌, Bool, true, false, List, [], ◌∷◌, ◌++◌, length, leb,
  not, ok, ltb, if-elim, if-true, if-false, ok, err, arith, Bool-cases, inl, inr, if◌then◌else◌,
}
use mathlib.Core.List.{append_assoc, append-nil}
use dbkit_sql.Integrations.BatchCollector.{
  BatchCollector, Stepped, CollectorEvent, Callback, Fate, adds, flushes, closes, elapses,
  new_collector, collector_step, collector_run, flush_locked, add, flush, close_collector,
  timer_flush, fate_of, hand_over, woken, empty_collector, bad_size, disarm, added, append,
}

module _ {A : Type 0} where
  -- The items of all calls of the callback, in the order of the calls.
  abbrev pub handed : List (List A × Fate) → List A
  handed [] = []
  handed ((xs, f) ∷ bs) = xs ++ handed bs

  -- The items given to `add` before the collector was closed.
  abbrev pub accepted : List (CollectorEvent A) → List A
  accepted [] = []
  accepted (adds x f ∷ es) = x ∷ accepted es
  accepted (flushes f ∷ es) = accepted es
  accepted (closes f ∷ es) = []
  accepted (elapses f ∷ es) = accepted es

  abbrev pub seen : BatchCollector A → List A
  seen b = handed b.batches ++ b.buffer

  handed-append : (bs cs : List (List A × Fate)) → handed (bs ++ cs) ≡ handed bs ++ handed cs
  handed-append [] cs = refl
  handed-append ((xs, f) ∷ bs) cs = simp (handed-append bs cs, append_assoc)

  hand_over-seen :
      (xs : List A) (f : Fate) (b : BatchCollector A)
      → xs ≡ b.buffer
      → seen (hand_over xs f b).0 ≡ seen b
  hand_over-seen [] f b h = refl
  hand_over-seen (x ∷ xs) f b h =
      simp (handed-append b.batches ((x ∷ xs, f) ∷ []), append-nil)
        (ap (λ ys. handed b.batches ++ ys) h)

  flush_locked-seen :
      (t : Bool) (f : Callback) (b : BatchCollector A) → seen (flush_locked t f b).0 ≡ seen b
  unfolding flush_locked
  flush_locked-seen t f b = hand_over-seen b.buffer (fate_of (t && b.timer) f) (disarm b) refl

  added-seen : (f : Callback) (b : BatchCollector A) → seen (added f b).0 ≡ seen b
  unfolding added
  added-seen f b =
      if-elim (λ (r : Stepped A). seen r.0 ≡ seen b) (leb b.max_size (length b.buffer))
        (λ full. flush_locked-seen false f b)
        (λ room.
          if-elim (λ (r : Stepped A). seen r.0 ≡ seen b) (not b.timer) (λ _. refl) (λ _. refl))

  -- What one event adds to the accepted items.
  abbrev pub taken : CollectorEvent A → Bool → List A
  taken (adds x f) closed = if closed then [] else x ∷ []
  taken _ closed = []

  pub step-seen :
      (e : CollectorEvent A) (b : BatchCollector A)
      → seen (collector_step e b) ≡ seen b ++ taken e b.closed
  unfolding collector_step add flush close_collector timer_flush
  step-seen (adds x f) b = elim (Bool-cases b.closed) [
    | inl h ↦
        ap (λ (r : Stepped A). seen r.0) (if-true _ _ h)
        ∙ sym (append-nil _)
        ∙ ap (λ c. seen b ++ taken (adds x f) c) (sym h)
    | inr h ↦
        ap (λ (r : Stepped A). seen r.0) (if-false _ _ h)
        ∙ added-seen f (append x b)
        ∙ sym (append_assoc (handed b.batches) b.buffer (x ∷ []))
        ∙ ap (λ c. seen b ++ taken (adds x f) c) (sym h)
  ]
  step-seen (flushes f) b = flush_locked-seen false f b ∙ sym (append-nil _)
  step-seen (closes f) b =
      flush_locked-seen false f (record b { closed = true }) ∙ sym (append-nil _)
  step-seen (elapses f) b =
      if-elim (λ (r : Stepped A). seen r.0 ≡ seen b) b.sleeping
        (λ _. flush_locked-seen true f (woken b)) (λ _. refl)
      ∙ sym (append-nil _)

  -- The events that follow in a collector that is closed or not.
  abbrev later : Bool → List (CollectorEvent A) → List A
  later true es = []
  later false es = accepted es

  abbrev pub closed_by : CollectorEvent A → Bool → Bool
  closed_by (closes f) c = true
  closed_by _ c = c

  flush_locked-closed :
      (t : Bool) (f : Callback) (b : BatchCollector A) → (flush_locked t f b).0.closed ≡ b.closed
  unfolding flush_locked
  flush_locked-closed t f b = hand_over-closed b.buffer (fate_of (t && b.timer) f) (disarm b)
    where
      hand_over-closed :
          (xs : List A) (g : Fate) (c : BatchCollector A) → (hand_over xs g c).0.closed ≡ c.closed
      hand_over-closed [] g c = refl
      hand_over-closed (x ∷ xs) g c = refl

  pub step-closed :
      (e : CollectorEvent A) (b : BatchCollector A)
      → (collector_step e b).closed ≡ closed_by e b.closed
  unfolding collector_step added add flush close_collector timer_flush
  step-closed (adds x f) b =
      if-elim (λ (r : Stepped A). r.0.closed ≡ b.closed) b.closed (λ _. refl)
        (λ _.
          if-elim (λ (r : Stepped A). r.0.closed ≡ b.closed)
            (leb b.max_size (length (b.buffer ++ x ∷ [])))
            (λ _. flush_locked-closed false f (append x b))
            (λ _.
              if-elim (λ (r : Stepped A). r.0.closed ≡ b.closed) (not b.timer) (λ _. refl)
                (λ _. refl)))
  step-closed (flushes f) b = flush_locked-closed false f b
  step-closed (closes f) b = flush_locked-closed false f (record b { closed = true })
  step-closed (elapses f) b =
      if-elim (λ (r : Stepped A). r.0.closed ≡ b.closed) b.sleeping
        (λ _. flush_locked-closed true f (woken b)) (λ _. refl)

  taken-later :
      (e : CollectorEvent A) (es : List (CollectorEvent A)) (c : Bool)
      → taken e c ++ later (closed_by e c) es ≡ later c (e ∷ es)
  taken-later (adds x f) es true = refl
  taken-later (adds x f) es false = refl
  taken-later (flushes f) es true = refl
  taken-later (flushes f) es false = refl
  taken-later (closes f) es true = refl
  taken-later (closes f) es false = refl
  taken-later (elapses f) es true = refl
  taken-later (elapses f) es false = refl

  run-seen :
      (es : List (CollectorEvent A)) (b : BatchCollector A)
      → seen (collector_run es b) ≡ seen b ++ later b.closed es
  unfolding collector_run
  run-seen [] b = sym (ap (λ xs. seen b ++ xs) (nothing b.closed) ∙ append-nil _)
    where
      nothing : (c : Bool) → later c [] ≡ []
      nothing true = refl
      nothing false = refl
  run-seen (e ∷ es) b =
      run-seen es (collector_step e b)
      ∙ ap (λ c. seen (collector_step e b) ++ later c es) (step-closed e b)
      ∙ ap (λ xs. xs ++ later (closed_by e b.closed) es) (step-seen e b)
      ∙ append_assoc (seen b) _ _
      ∙ ap (λ xs. seen b ++ xs) (taken-later e es b.closed)

  pub new_collector-ok :
      (max_size : ℕ) (b : BatchCollector A)
      → new_collector max_size ≡ ok b
      → (empty_collector max_size ≡ b) × (1 ≤ max_size)
  unfolding new_collector
  new_collector-ok max_size b h = elim (Bool-cases (ltb max_size 1)) [
    | inl small ↦ cc (if-true (err bad_size) (ok (empty_collector max_size)) small)
    | inr large ↦ (cc (if-false (err bad_size) (ok (empty_collector max_size)) large), ground arith)
  ]

  -- Whatever is added, flushed, timed and closed, in whatever order and whatever the callback does: the
  -- items that a new collector has handed to the callback, call after call, and those that it still
  -- holds are together the items added before it was closed, each once and in the order of the adding.
  pub run-in_order :
      (max_size : ℕ) (es : List (CollectorEvent A)) (b : BatchCollector A)
      → new_collector max_size ≡ ok b
      → handed (collector_run es b).batches ++ (collector_run es b).buffer ≡ accepted es
  run-in_order max_size es b h =
      subst (λ c. seen (collector_run es c) ≡ accepted es) (new_collector-ok max_size b h).0
        (run-seen es (empty_collector max_size))
