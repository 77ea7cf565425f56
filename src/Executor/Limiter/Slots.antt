-- ===== src/Executor/Limiter/Slots.antt =====
-- The slots of a limiter: none is lost and none is given out twice.
use dbkit_sql.Prelude.{
  ℕ, zero, suc, ◌+◌, ◌≡◌, refl, sym, ap, ◌∙◌, subst, String, Option, none, some, List, [], ◌∷◌,
  ◌++◌, ◌==◌, string_eq, if◌then◌else◌, ◌⊎◌, inl, inr, arith,
}
use dbkit_sql.Prelude.Dict.{get, set, get-set}
use dbkit_sql.Config.{ConcurrencyConfig}
use dbkit_sql.Executor.{ConcurrencyLimiter, new_limiter}
use dbkit_sql.Executor.Resilience.{tiers}
use dbkit_sql.Executor.Limiter.{
  bulk_tiers, Operation, begin_operation, System, Move, enters, finishes, Step, moves,
  begins_attempt, begins_bulk, gives_up, Reach, starts, next, enter_tier, release_slot, release_all,
  take_slot, one_more,
}

-- How often a tier stands in a list.
abbrev pub count : String → List String → ℕ
count t [] = 0
count t (h ∷ hs) = (if h == t then 1 else 0) + count t hs

-- The slots of a tier that the operations hold together.
abbrev pub holders : String → List Operation → ℕ
holders t [] = 0
holders t (o ∷ os) = count t o.held + holders t os

-- The free slots and those held are the configured ones; of an unbounded tier nobody holds any.
abbrev pub Balanced : Option ℕ → Option ℕ → ℕ → Type 0
Balanced none none held = held ≡ 0
Balanced none (some f) held = ⊥
Balanced (some n) none held = ⊥
Balanced (some n) (some f) held = f + held ≡ n

pub holders-append :
    (t : String) (xs ys : List Operation) → holders t (xs ++ ys) ≡ holders t xs + holders t ys
holders-append t [] ys = omega arith
holders-append t (x ∷ xs) ys = omega (arith, holders-append t xs ys)

abbrev plus : ℕ → Option ℕ → Option ℕ
plus k none = none
plus k (some n) = some (n + k)

get-one_more :
    (k : String) (o : Option ℕ) (l : ConcurrencyLimiter) (t : String)
    → get l k ≡ o
    → get (one_more o k l) t ≡ plus (if k == t then 1 else 0) (get l t)
get-one_more k none l t e = ground (arith, string_eq.eqb_iff k t)
get-one_more k (some n) l t e = get-set l k t (suc n) ∙ ground (arith, string_eq.eqb_iff k t)

get-release_slot :
    (k : String) (l : ConcurrencyLimiter) (t : String)
    → get (release_slot k l) t ≡ plus (if k == t then 1 else 0) (get l t)
unfolding release_slot
get-release_slot k l t = get-one_more k (get l k) l t refl

plus-plus : (m n : ℕ) (o : Option ℕ) → plus m (plus n o) ≡ plus (n + m) o
plus-plus m n none = refl
plus-plus m n (some k) = ap some (omega arith)

pub get-release_all :
    (ts : List String) (l : ConcurrencyLimiter) (t : String)
    → get (release_all ts l) t ≡ plus (count t ts) (get l t)
unfolding release_all
get-release_all [] l t = plus_zero (get l t)
  where
    plus_zero : (o : Option ℕ) → o ≡ plus 0 o
    plus_zero none = refl
    plus_zero (some n) = ap some (omega arith)
get-release_all (k ∷ ts) l t =
    get-release_all ts (release_slot k l) t
    ∙ ap (plus (count t ts)) (get-release_slot k l t)
    ∙ plus-plus (count t ts) (if k == t then 1 else 0) (get l t)

-- Entering a tier either takes a free slot of it, or none where the tier is unbounded.
abbrev pub Entered :
    String → ConcurrencyLimiter → List String → ConcurrencyLimiter → List String → Type 0
Entered tier l held l' held' =
    ((get l tier ≡ none) × (l' ≡ l) × (held' ≡ held))
    ⊎ ((n : ℕ) × (get l tier ≡ some (suc n)) × (l' ≡ set l tier n) × (held' ≡ tier ∷ held))

pub enter_tier-some :
    (tier : String) (l l' : ConcurrencyLimiter) (held held' : List String)
    → enter_tier tier l held ≡ some (l', held')
    → Entered tier l held l' held'
unfolding enter_tier
enter_tier-some tier l l' held held' h = taken (get l tier) refl h
  where
    taken :
        (o : Option ℕ)
        → get l tier ≡ o
        → take_slot o tier l held ≡ some (l', held')
        → Entered tier l held l' held'
    taken none e g = inl (e, cc, cc)
    taken (some zero) e g = cc
    taken (some (suc n)) e g = inr (n, e, cc, cc)

-- Of one tier, an operation's slots before and after.
Balanced-enter :
    (tier : String) (l l' : ConcurrencyLimiter) (held held' : List String) (t : String)
    (c : Option ℕ) (others : ℕ)
    → Entered tier l held l' held'
    → Balanced c (get l t) (count t held + others)
    → Balanced c (get l' t) (count t held' + others)
Balanced-enter tier l l' held held' t c others (inl (e, p, q)) b = rw (p, q) b
Balanced-enter tier l l' held held' t c others (inr (n, e, p, q)) b =
    rw (p, q) (rw (get-set l tier t n) (ground (arith, string_eq.eqb_iff tier t)))

Balanced-release :
    (c o : Option ℕ) (k others : ℕ) → Balanced c o (k + others) → Balanced c (plus k o) others
Balanced-release none none k others b = omega arith
Balanced-release none (some f) k others b = b
Balanced-release (some n) none k others b = b
Balanced-release (some n) (some f) k others b = omega arith

holders-pick :
    (t : String) (before after : List Operation) (o : Operation)
    → holders t (before ++ o ∷ after) ≡ count t o.held + (holders t before + holders t after)
holders-pick t before after o = omega (arith, holders-append t before (o ∷ after))

abbrev pub IsBalanced : ConcurrencyConfig → System → Type 0
IsBalanced c s =
    (t : String) → Balanced (get (new_limiter c) t) (get s.limiter t) (holders t s.operations)

-- The held slots of a picked operation, apart from those of all others.
picked :
    (c : Option ℕ) (t : String) (before after : List Operation) (o : Operation) (s : System)
    → s.operations ≡ before ++ o ∷ after
    → Balanced c (get s.limiter t) (holders t s.operations)
    → Balanced c (get s.limiter t) (count t o.held + (holders t before + holders t after))
picked c t before after o s e b =
    subst (Balanced c (get s.limiter t)) (ap (holders t) e ∙ holders-pick t before after o) b

IsBalanced-leave :
    (c : ConcurrencyConfig) (s : System) (before after : List Operation) (o : Operation)
    → s.operations ≡ before ++ o ∷ after
    → IsBalanced c s
    → IsBalanced c (record { limiter = release_all o.held s.limiter; operations = before ++ after })
IsBalanced-leave c s before after o e b t =
    rw (get-release_all o.held s.limiter t, holders-append t before after)
      (Balanced-release (get (new_limiter c) t) (get s.limiter t) (count t o.held) _
        (picked (get (new_limiter c) t) t before after o s e (b t)))

pub IsBalanced-Move :
    (c : ConcurrencyConfig) (s u : System) → Move s u → IsBalanced c s → IsBalanced c u
IsBalanced-Move c s u (enters before after o tier rest held l e w g e') b =
    subst (IsBalanced c) (sym e') λ t.
      rw (holders-pick t before after (record { held = held; wanted = rest })) (
        Balanced-enter tier s.limiter l o.held held t (get (new_limiter c) t)
          (holders t before + holders t after) (enter_tier-some tier s.limiter l o.held held g)
          (picked (get (new_limiter c) t) t before after o s e (b t)))
IsBalanced-Move c s u (finishes before after o e w e') b =
    subst (IsBalanced c) (sym e') (IsBalanced-leave c s before after o e b)

IsBalanced-begin :
    (c : ConcurrencyConfig) (s : System) (wanted : List String)
    → IsBalanced c s
    → IsBalanced c (record s { operations = begin_operation wanted ∷ s.operations })
IsBalanced-begin c s wanted b t =
    let same : holders t s.operations ≡ 0 + holders t s.operations = omega arith in
    subst (Balanced (get (new_limiter c) t) (get s.limiter t)) same (b t)

IsBalanced-Step :
    (c : ConcurrencyConfig) (s u : System) → Step s u → IsBalanced c s → IsBalanced c u
IsBalanced-Step c s u (moves m) b = IsBalanced-Move c s u m b
IsBalanced-Step c s u (begins_attempt q e) b =
    subst (IsBalanced c) (sym e) (IsBalanced-begin c s (tiers q) b)
IsBalanced-Step c s u (begins_bulk e) b =
    subst (IsBalanced c) (sym e) (IsBalanced-begin c s bulk_tiers b)
IsBalanced-Step c s u (gives_up before after o e w e') b =
    subst (IsBalanced c) (sym e') (IsBalanced-leave c s before after o e b)

Balanced-start : (o : Option ℕ) → Balanced o o 0
Balanced-start none = refl
Balanced-start (some n) = omega arith

-- In every reachable state of a new limiter, whatever operations began, entered, finished and gave up: of
-- a bounded tier, the free slots and those held are together as many as configured, so no more
-- operations than that hold one; and of an unbounded tier none is held.
pub Reach-IsBalanced : (c : ConcurrencyConfig) (s : System) → Reach c s → IsBalanced c s
Reach-IsBalanced c s starts t = Balanced-start (get (new_limiter c) t)
Reach-IsBalanced c s (next {s = p} r m) t = IsBalanced-Step c p s m (Reach-IsBalanced c p r) t
