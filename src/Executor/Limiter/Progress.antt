-- ===== src/Executor/Limiter/Progress.antt =====
-- No deadlock: the tiers are entered in one order, so somebody can always go on.
mod Order
use dbkit_sql.Prelude.{
  ℕ, zero, suc, ◌+◌, ◌≤◌, ◌<◌, ◌≡◌, ◌≢◌, refl, sym, ap, ◌∙◌, subst, String, Option, none, some,
  List, [], ◌∷◌, ◌++◌, ◌==◌, string_eq, ◌⊎◌, inl, inr, arith, length, All, Option-cases,
  if◌then◌else◌, ltb, Bool-cases,
}
use dbkit_sql.Prelude.Dict.{get}
use dbkit_sql.Config.{ConcurrencyConfig}
use dbkit_sql.Executor.{ConcurrencyLimiter, new_limiter, bound_tier}
use dbkit_sql.Executor.Limiter.{
  Operation, System, Move, enters, finishes, Moves, stays, more, Reach, enter_tier, take_slot,
}
use dbkit_sql.Executor.Limiter.Progress.Order.{
  rank, rank-le, AllAfter, IsOrdered, All-pick, IsOrdered-Move, Reach-IsOrdered,
}
use dbkit_sql.Executor.Limiter.Slots.{
  count, holders, Balanced, IsBalanced, IsBalanced-Move, Reach-IsBalanced, holders-append,
}

-- Only positive limits are bounds.
bound_tier-pos :
    (tier : String) (o : Option ℕ) (l : ConcurrencyLimiter) (t : String) (n : ℕ)
    → ((m : ℕ) → get l t ≡ some m → 0 < m)
    → get (bound_tier tier o l) t ≡ some n
    → 0 < n
unfolding get
bound_tier-pos tier none l t n h e = h n e
bound_tier-pos tier (some m) l t n h e = ground (arith, h n)

new_limiter-pos :
    (c : ConcurrencyConfig) (t : String) (n : ℕ) → get (new_limiter c) t ≡ some n → 0 < n
unfolding new_limiter get
new_limiter-pos c t n e =
    bound_tier-pos "database" c.database _ t n
      (λ n1. bound_tier-pos "reads" c.reads _ t n1 (λ n2.
        bound_tier-pos "writes" c.writes _ t n2 (λ n3.
          bound_tier-pos "bulk" c.bulk_writes _ t n3
            (λ n4. bound_tier-pos "expensive" c.expensive_queries [] t n4 (λ m h. cc)))))
      e

-- Who holds a slot of a tier.
abbrev Holder : String → List Operation → Type 0
Holder t os =
    (before : List Operation) × (o : Operation) × (after : List Operation) × (os
      ≡ before ++ o ∷ after)
    × (0 < count t o.held)

Holder-some : (t : String) (os : List Operation) → 0 < holders t os → Holder t os
Holder-some t [] h = elim h [ ]
Holder-some t (o ∷ os) h = first (count t o.held) refl (λ n. Holder-some t os n)
  where
    first : (n : ℕ) → count t o.held ≡ n → (0 < holders t os → Holder t os) → Holder t (o ∷ os)
    first (suc n) e later = ([], o, os, refl, omega arith)
    first zero e later =
        let (before, p, after, e', held) = later (omega arith) in
        (o ∷ before, p, after, ap (◌∷◌ o) e', held)

-- What holds of all tiers held holds of one that is held.
All-count : (P : String → Type 0) (t : String) (hs : List String) → All P hs → 0 < count t hs → P t
All-count P t [] h n = absurd (omega arith)
All-count P t (x ∷ xs) h n = elim (Bool-cases (x == t)) [
  | inl same ↦ subst P ((string_eq.eqb_iff x t).0 same) h.0
  | inr other ↦ All-count P t xs h.1 (ground arith)
]

-- A tier that cannot be entered has no free slot.
enter_tier-none :
    (tier : String) (l : ConcurrencyLimiter) (held : List String)
    → enter_tier tier l held ≡ none
    → get l tier ≡ some 0
unfolding enter_tier
enter_tier-none tier l held h = waits (get l tier) refl h
  where
    waits : (o : Option ℕ) → get l tier ≡ o → take_slot o tier l held ≡ none → get l tier ≡ some 0
    waits none e g = cc
    waits (some zero) e g = e
    waits (some (suc n)) e g = cc

full-held :
    (c : ConcurrencyConfig) (s : System) (tier : String)
    → IsBalanced c s
    → get s.limiter tier ≡ some 0
    → 0 < holders tier s.operations
full-held c s tier b e =
    positive (get (new_limiter c) tier) refl
      (subst (λ o. Balanced (get (new_limiter c) tier) o (holders tier s.operations)) e (b tier))
  where
    positive :
        (o : Option ℕ)
        → get (new_limiter c) tier ≡ o
        → Balanced o (some 0) (holders tier s.operations)
        → 0 < holders tier s.operations
    positive none g h = absurd h
    positive (some n) g h = let p = new_limiter-pos c tier n g in omega arith

abbrev CanMove : System → Type 0
CanMove s = (u : System) × Move s u

All-weaken :
    (t : String) (r : ℕ) (ws : List String)
    → r ≤ rank t
    → AllAfter t ws
    → All (λ w. suc r ≤ rank w) ws
All-weaken t r [] le h = tt
All-weaken t r (w ∷ ws) le h = (omega (arith, le, h.0), All-weaken t r ws le h.1)

-- From an operation whose tiers all have rank `r` or more, along the holders of the tiers waited for.
unblock :
    (k r : ℕ) (c : ConcurrencyConfig) (s : System)
    → IsBalanced c s
    → All IsOrdered s.operations
    → 3 ≤ k + r
    → (before after : List Operation) (o : Operation) (ws : List String)
    → s.operations ≡ before ++ o ∷ after
    → o.wanted ≡ ws
    → All (λ w. r ≤ rank w) ws
    → CanMove s
unblock k r c s b d le before after o [] e w h = (_, finishes before after o e w refl)
unblock zero r c s b d le before after o (tier ∷ rest) e w h =
    let bound = rank-le tier in absurd (omega (arith, h.0))
unblock (suc k) r c s b d le before after o (tier ∷ rest) e w h =
    elim (Option-cases (enter_tier tier s.limiter o.held)) [
      | inr ((l, held), g) ↦ (_, enters before after o tier rest held l e w g refl)
      | inl g ↦
          let full = full-held c s tier b (enter_tier-none tier s.limiter o.held g) in
          let (before', p, after', e', held) = Holder-some tier s.operations full in
          let ordered = (All-pick IsOrdered before' after' p (subst (All IsOrdered) e' d)).1 in
          unblock k (suc r) c s b d (omega arith) before' after' p p.wanted e' refl (
            All-weaken tier r p.wanted h.0
              (All-count (λ x. AllAfter x p.wanted) tier p.held ordered.0 held))
    ]

move_of :
    (c : ConcurrencyConfig) (s : System) (os : List Operation)
    → s.operations ≡ os
    → IsBalanced c s
    → All IsOrdered s.operations
    → (os ≡ []) ⊎ CanMove s
move_of c s [] e b d = inl refl
move_of c s (o ∷ os) e b d =
    inr (unblock 3 0 c s b d (omega arith) [] os o o.wanted e refl (All-zero o.wanted))
  where
    All-zero : (ws : List String) → All (λ w. 0 ≤ rank w) ws
    All-zero [] = tt
    All-zero (w ∷ ws) = (omega arith, All-zero ws)

-- The moves that are left: every tier to enter, and the end of every operation.
abbrev pub work : List Operation → ℕ
work [] = 0
work (o ∷ os) = suc (length o.wanted) + work os

work-append : (xs ys : List Operation) → work (xs ++ ys) ≡ work xs + work ys
work-append [] ys = omega arith
work-append (x ∷ xs) ys = omega (arith, work-append xs ys)

work-Move : (s u : System) → Move s u → suc (work u.operations) ≡ work s.operations
work-Move s u (enters before after o tier rest held l e w g e') =
    rw (e, e')
      (omega (
        arith,
        work-append before (o ∷ after),
        work-append before (record { held = held; wanted = rest } ∷ after),
        ap length w,
      ))
work-Move s u (finishes before after o e w e') =
    rw (e, e')
      (omega (arith, work-append before (o ∷ after), work-append before after, ap length w))

abbrev pub count_moves : {u s : System} → Moves u s → ℕ
count_moves stays = 0
count_moves (more m ms) = suc (count_moves ms)

Moves-keep :
    (c : ConcurrencyConfig) (u s : System) (ms : Moves u s)
    → IsBalanced c s
    → All IsOrdered s.operations
    → IsBalanced c u
      × All IsOrdered u.operations
      × (count_moves ms + work u.operations ≡ work s.operations)
Moves-keep c u s stays b d = (b, d, omega arith)
Moves-keep c u s (more {t = t} m ms) b d =
    let r = Moves-keep c u t ms (IsBalanced-Move c s t m b) (IsOrdered-Move s t m d) in
    (r.0, r.1, omega (arith, r.2, work-Move s t m))

all_free :
    (c : ConcurrencyConfig) (s : System) (t : String)
    → s.operations ≡ []
    → IsBalanced c s
    → get s.limiter t ≡ get (new_limiter c) t
all_free c s t e b =
    same (get (new_limiter c) t) (get s.limiter t)
      (subst (λ os. Balanced (get (new_limiter c) t) (get s.limiter t) (holders t os)) e (b t))
  where
    same : (n f : Option ℕ) → Balanced n f 0 → f ≡ n
    same none none h = refl
    same none (some f) h = absurd h
    same (some n) none h = absurd h
    same (some n) (some f) h = ap some (omega arith)

-- No deadlock and no lost slot: from a reachable state of a new limiter in which no operation begins and
-- none is given up, every schedule, whichever operations it picks, makes at most as many moves as there
-- are tiers to enter and operations to end; it can go on as long as an operation is left; and when none
-- is left, every tier has its configured slots again.
pub Reach-drains :
    (c : ConcurrencyConfig) (s u : System) (ms : Moves u s)
    → Reach c s
    → (count_moves ms ≤ work s.operations)
      × (((u.operations ≡ []) × ((t : String) → get u.limiter t ≡ get (new_limiter c) t))
          ⊎ ((v : System) × Move u v))
Reach-drains c s u ms r =
    let (b, d, n) = Moves-keep c u s ms (Reach-IsBalanced c s r) (Reach-IsOrdered c s r) in
    (omega (arith, n), end b d (move_of c u u.operations refl b d))
  where
    end :
        IsBalanced c u
        → All IsOrdered u.operations
        → (u.operations ≡ []) ⊎ CanMove u
        → ((u.operations ≡ []) × ((t : String) → get u.limiter t ≡ get (new_limiter c) t))
          ⊎ CanMove u
    end b d (inl e) = inl (e, λ t. all_free c u t e b)
    end b d (inr m) = inr m
