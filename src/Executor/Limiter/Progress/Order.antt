-- ===== src/Executor/Limiter/Progress/Order.antt =====
-- The order in which operations enter their tiers.
use dbkit_sql.Prelude.{
  ℕ, ◌≤◌, ◌<◌, ◌≡◌, sym, subst, String, Option, none, some, Bool, true, false, List, [], ◌∷◌, ◌++◌,
  ◌==◌, string_eq, inl, inr, ◌⊎◌, arith, All, All-append, if◌then◌else◌,
}
use dbkit_sql.Query.{Query, is_write}
use dbkit_sql.Config.{ConcurrencyConfig}
use dbkit_sql.Executor.{ConcurrencyLimiter}
use dbkit_sql.Executor.Resilience.{tiers}
use dbkit_sql.Executor.Limiter.{
  Operation, System, Move, enters, finishes, Step, moves, begins_attempt, begins_bulk, gives_up,
  Reach, starts, next, enter_tier, bulk_tiers,
}
use dbkit_sql.Executor.Limiter.Slots.{enter_tier-some}

abbrev pub rank : String → ℕ
rank t = if t == "database" then 0 else (if t == "expensive" then 2 else 1)

pub rank-le : (t : String) → rank t ≤ 2
rank-le t = ground arith

abbrev pub AllAfter : String → List String → Type 0
AllAfter t ws = All (λ w. rank t < rank w) ws

abbrev pub Rising : List String → Type 0
Rising [] = Unit
Rising (t ∷ ts) = AllAfter t ts × Rising ts

-- An operation wants its tiers in rising order, and above those that it holds.
abbrev pub IsOrdered : Operation → Type 0
IsOrdered o = All (λ h. AllAfter h o.wanted) o.held × Rising o.wanted

pub All-pick {ℓ} :
    {A : Type ℓ} (P : A → Type 0) (xs ys : List A) (y : A)
    → All P (xs ++ y ∷ ys)
    → All P xs × P y × All P ys
All-pick P [] ys y h = (tt, h.0, h.1)
All-pick P (x ∷ xs) ys y h = let r = All-pick P xs ys y h.1 in ((h.0, r.0), r.1, r.2)

All-tail :
    (hs : List String) (tier : String) (rest : List String)
    → All (λ h. AllAfter h (tier ∷ rest)) hs
    → All (λ h. AllAfter h rest) hs
All-tail [] tier rest h = tt
All-tail (x ∷ xs) tier rest h = (h.0.1, All-tail xs tier rest h.1)

IsOrdered-enter :
    (tier : String) (rest held held' : List String)
    → All (λ h. AllAfter h (tier ∷ rest)) held
    → Rising (tier ∷ rest)
    → (held' ≡ held) ⊎ (held' ≡ tier ∷ held)
    → All (λ h. AllAfter h rest) held'
IsOrdered-enter tier rest held held' h r (inl e) = rw e (All-tail held tier rest h)
IsOrdered-enter tier rest held held' h r (inr e) = rw e (r.0, All-tail held tier rest h)

held_cases :
    (tier : String) (s : System) (o : Operation) (held : List String) (l : ConcurrencyLimiter)
    → enter_tier tier s.limiter o.held ≡ some (l, held)
    → (held ≡ o.held) ⊎ (held ≡ tier ∷ o.held)
held_cases tier s o held l g = elim (enter_tier-some tier s.limiter l o.held held g) [
  | inl (_, _, e) ↦ inl e
  | inr (_, _, _, e) ↦ inr e
]

picked :
    (s : System) (before after : List Operation) (o : Operation)
    → s.operations ≡ before ++ o ∷ after
    → All IsOrdered s.operations
    → All IsOrdered before × IsOrdered o × All IsOrdered after
picked s before after o e h = All-pick IsOrdered before after o (subst (All IsOrdered) e h)

IsOrdered-leave :
    (s : System) (before after : List Operation) (o : Operation)
    → s.operations ≡ before ++ o ∷ after
    → All IsOrdered s.operations
    → All IsOrdered (before ++ after)
IsOrdered-leave s before after o e h =
    let r = picked s before after o e h in All-append IsOrdered before after r.0 r.2

pub IsOrdered-Move :
    (s u : System) → Move s u → All IsOrdered s.operations → All IsOrdered u.operations
IsOrdered-Move s u (enters before after o tier rest held l e w g e') h =
    let r = picked s before after o e h in
    let wanted = subst (λ ws. All (λ x. AllAfter x ws) o.held × Rising ws) w r.1 in
    subst (λ v. All IsOrdered v.operations) (sym e')
      (All-append IsOrdered before _ r.0 (
        (
          IsOrdered-enter tier rest o.held held wanted.0 wanted.1 (held_cases tier s o held l g),
          wanted.1.1,
        ),
        r.2,
      ))
IsOrdered-Move s u (finishes before after o e w e') h =
    subst (λ v. All IsOrdered v.operations) (sym e') (IsOrdered-leave s before after o e h)

attempt-Rising :
    (w e : Bool)
    → Rising ("database" ∷ (if w then "writes" else "reads") ∷ (if e then "expensive" ∷ [] else []))
attempt-Rising true true = omega arith
attempt-Rising true false = omega arith
attempt-Rising false true = omega arith
attempt-Rising false false = omega arith

tiers-Rising : (q : Option Query) → Rising (tiers q)
unfolding tiers
tiers-Rising none = omega arith
tiers-Rising (some q) = attempt-Rising (is_write q) q.expensive

IsOrdered-Step : (s u : System) → Step s u → All IsOrdered s.operations → All IsOrdered u.operations
unfolding bulk_tiers
IsOrdered-Step s u (moves m) h = IsOrdered-Move s u m h
IsOrdered-Step s u (begins_attempt q e) h =
    subst (λ v. All IsOrdered v.operations) (sym e) ((tt, tiers-Rising q), h)
IsOrdered-Step s u (begins_bulk e) h =
    subst (λ v. All IsOrdered v.operations) (sym e) ((tt, omega arith), h)
IsOrdered-Step s u (gives_up before after o e w e') h =
    subst (λ v. All IsOrdered v.operations) (sym e') (IsOrdered-leave s before after o e h)

-- Every operation of a reachable state wants its tiers in the common order.
pub Reach-IsOrdered : (c : ConcurrencyConfig) (s : System) → Reach c s → All IsOrdered s.operations
Reach-IsOrdered c s starts = tt
Reach-IsOrdered c s (next {s = p} r m) = IsOrdered-Step p s m (Reach-IsOrdered c p r)
