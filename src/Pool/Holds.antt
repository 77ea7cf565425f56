-- ===== src/Pool/Holds.antt =====
-- What the instrumentation knows of held connections.
use dbkit_sql.Prelude.{
  ℕ, ◌-◌, ◌≤◌, min, ◌≡◌, refl, sym, ap, ◌∙◌, subst, Option, none, some, true, false, List, [], ◌∷◌,
  ◌++◌, leb, nat_eq, arith, if◌then◌else◌, ◌==◌, inl, inr, ◌⊎◌, Bool-cases, is_some,
}
use dbkit_sql.Prelude.Dict.{
  Dict, get, set, remove, get-set, get-remove, Distinct, set-Distinct, remove-Distinct,
}
use dbkit_sql.Pool.{
  PoolInstrumentation, new_instrumentation, on_checkout, on_checkin, observed, PoolEvent, connected,
  invalidated, connection_closed, checks_out, checks_in, pool_step, pool_run, oldest_since, earlier,
  held_since, longest_current_hold, on_connect, on_invalidate, on_close,
}

-- Since when a connection is held, by the events about it alone.
abbrev pub after_event : ℕ → PoolEvent → Option ℕ → Option ℕ
after_event id (checks_out now k) since = if k == id then some now else since
after_event id (checks_in now k) since = if k == id then none else since
after_event id connected since = since
after_event id invalidated since = since
after_event id connection_closed since = since

abbrev pub after_events : ℕ → List PoolEvent → Option ℕ → Option ℕ
after_events id [] since = since
after_events id (e ∷ es) since = after_events id es (after_event id e since)

record Inv (p : PoolInstrumentation) : Type 0 where
  pub same : p.infos ≡ p.checked_out
  pub distinct : Distinct p.checked_out

checked_out-observed :
    (o : Option ℕ) (now : ℕ) (p : PoolInstrumentation)
    → ((observed o now p).checked_out ≡ p.checked_out) × ((observed o now p).infos ≡ p.infos)
checked_out-observed none now p = (refl, refl)
checked_out-observed (some t) now p = (refl, refl)

step-Inv : (e : PoolEvent) (p : PoolInstrumentation) → Inv p → Inv (pool_step e p)
unfolding pool_step on_connect on_checkout on_checkin on_invalidate on_close
step-Inv connected p h = record { same = h.same; distinct = h.distinct }
step-Inv invalidated p h = record { same = h.same; distinct = h.distinct }
step-Inv connection_closed p h = record { same = h.same; distinct = h.distinct }
step-Inv (checks_out now id) p h = record {
  same = ap (λ d. set d id now) h.same;
  distinct = set-Distinct p.checked_out id now h.distinct;
}
step-Inv (checks_in now id) p h =
    let (out, info) =
      checked_out-observed (get p.infos id) now
        (record p { infos = remove p.infos id; checked_out = remove p.checked_out id }) in
    record {
      same = info ∙ ap (λ d. remove d id) h.same ∙ sym out;
      distinct = subst Distinct (sym out) (remove-Distinct p.checked_out id h.distinct);
    }

step-since :
    (id : ℕ) (e : PoolEvent) (p : PoolInstrumentation)
    → Inv p
    → get (pool_step e p).checked_out id ≡ after_event id e (get p.checked_out id)
unfolding pool_step on_connect on_checkout on_checkin on_invalidate on_close
step-since id connected p h = refl
step-since id invalidated p h = refl
step-since id connection_closed p h = refl
step-since id (checks_out now k) p h = get-set p.checked_out k id now
step-since id (checks_in now k) p h =
    let (out, info) =
      checked_out-observed (get p.infos k) now
        (record p { infos = remove p.infos k; checked_out = remove p.checked_out k }) in
    ap (λ d. get d id) out ∙ get-remove p.checked_out k id h.distinct

run-Inv : (es : List PoolEvent) (p : PoolInstrumentation) → Inv p → Inv (pool_run es p)
unfolding pool_run
run-Inv [] p h = h
run-Inv (e ∷ es) p h = run-Inv es (pool_step e p) (step-Inv e p h)

run-since :
    (id : ℕ) (es : List PoolEvent) (p : PoolInstrumentation)
    → Inv p
    → get (pool_run es p).checked_out id ≡ after_events id es (get p.checked_out id)
unfolding pool_run
run-since id [] p h = refl
run-since id (e ∷ es) p h =
    run-since id es (pool_step e p) (step-Inv e p h) ∙ ap (after_events id es) (step-since id e p h)

-- The oldest checkout: none is older, and it is one of them.
record Oldest (d : Dict ℕ ℕ) (o : ℕ) : Type 0 where
  pub found : oldest_since d ≡ some o
  pub least : (id t : ℕ) → get d id ≡ some t → o ≤ t
  pub held : (id : ℕ) × (get d id ≡ some o)

get-cons :
    (i s : ℕ) (d : Dict ℕ ℕ) (id t : ℕ)
    → get ((i, s) ∷ d) id ≡ some t
    → ((i ≡ id) × (s ≡ t)) ⊎ (get d id ≡ some t)
unfolding get
get-cons i s d id t h = ground arith

Oldest-one : (i s : ℕ) → Oldest ((i, s) ∷ []) s
unfolding oldest_since get
Oldest-one i s = record { found = refl; least = λ id t h. ground arith; held = (i, ground arith) }

Oldest-more :
    (i s : ℕ) (d : Dict ℕ ℕ) (o : ℕ)
    → is_some (get d i) ≡ false
    → Oldest d o
    → Oldest ((i, s) ∷ d) (min s o)
unfolding oldest_since get
Oldest-more i s d o fresh h = record {
  found = ap (earlier s) h.found;
  least = λ id t g. elim (get-cons i s d id t g) [
    | inl (same, e) ↦ omega arith
    | inr later ↦ let le = h.least id t later in omega arith
  ];
  held = elim (Bool-cases (leb s o)) [
    | inl first ↦ (i, here first)
    | inr other ↦ (h.held.0, there h.held.0 h.held.1 other)
  ];
}
  where
    here : leb s o ≡ true → get ((i, s) ∷ d) i ≡ some (min s o)
    here first = ground arith

    there : (j : ℕ) → get d j ≡ some o → leb s o ≡ false → get ((i, s) ∷ d) j ≡ some (min s o)
    there j g other = ground arith

oldest_lem : (d : Dict ℕ ℕ) → Distinct d → (d ≡ []) ⊎ ((o : ℕ) × Oldest d o)
oldest_lem [] h = inl refl
oldest_lem ((i, s) ∷ d) h = inr (elim (oldest_lem d h.1) [
  | inl e ↦ (s, subst (λ x. Oldest ((i, s) ∷ x) s) (sym e) (Oldest-one i s))
  | inr (o, g) ↦ (min s o, Oldest-more i s d o h.0 g)
])

new-Inv : (long_hold : ℕ) → Inv (new_instrumentation long_hold)
unfolding new_instrumentation
new-Inv long_hold = record { same = refl; distinct = tt }

-- Leak detection is exact. After any events of a new pool, take a connection that is held since `since`, by
-- the events about it alone: the longest current hold is at least its own, and is the hold of some
-- connection; and when it comes back at `now`, its hold is recorded, with the warning if it is as long as
-- the threshold.
pub run-longest :
    (long_hold now id since : ℕ) (es : List PoolEvent)
    → after_events id es none ≡ some since
    → let p = pool_run es (new_instrumentation long_hold) in
      (now - since ≤ longest_current_hold now p)
      × ((j : ℕ) × (t : ℕ) × (after_events j es none ≡ some t)
          × (longest_current_hold now p ≡ now - t))
      × ((on_checkin now id p).holds ≡ p.holds ++ (now - since, leb p.long_hold (now - since)) ∷ [])
unfolding new_instrumentation longest_current_hold on_checkin get
run-longest long_hold now id since es h = elim (oldest_lem p.checked_out inv.distinct) [
  | inl e ↦ cc (e, at)
  | inr (o, g) ↦
      let le = g.least id since at in
      let longest = ap (held_since now) g.found in
      let (j, held) = g.held in
      (
        omega (arith, le, longest),
        (j, o, sym (run-since j es fresh (new-Inv long_hold)) ∙ held, longest),
        ap (λ x. (observed x now (back p)).holds) (ap (λ d. get d id) inv.same ∙ at),
      )
]
  where
    fresh : PoolInstrumentation
    fresh = new_instrumentation long_hold

    p : PoolInstrumentation
    p = pool_run es fresh

    inv : Inv p
    inv = run-Inv es fresh (new-Inv long_hold)

    at : get p.checked_out id ≡ some since
    at = run-since id es fresh (new-Inv long_hold) ∙ h

    back : PoolInstrumentation → PoolInstrumentation
    back q = record q { infos = remove q.infos id; checked_out = remove q.checked_out id }
