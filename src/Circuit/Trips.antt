-- ===== src/Circuit/Trips.antt =====
-- When a breaker opens: the window as a count over the failures, and the cooldown.
use dbkit_sql.Prelude.{
  ℕ, suc, ◌+◌, ◌≤◌, ◌<◌, ◌≡◌, refl, ◌∙◌, ◌↔◌, false, List, [], ◌∷◌, ◌++◌, arith, length, ltb,
  if◌then◌else◌, All, All-append,
}
use dbkit_sql.Circuit.{
  CircuitBreaker, Settings, closed, open_, Call, asks, allows, succeeds, fails, new, state, allow,
  drop_old, prune, count_failure, on_failure, step, run,
}

-- How many failures lie in the window that ends now.
abbrev pub recent : ℕ → ℕ → List ℕ → ℕ
recent w now [] = 0
recent w now (f ∷ fs) = let rest = recent w now fs in if ltb (f + w) now then rest else suc rest

-- Times that do not fall, from a first one on.
abbrev pub Chronological : ℕ → List ℕ → Type 0
Chronological t [] = Unit
Chronological t (f ∷ fs) = (t ≤ f) × Chronological f fs

recent-all :
    (w now t : ℕ) (fs : List ℕ) → now ≤ t + w → Chronological t fs → recent w now fs ≡ length fs
recent-all w now t [] h c = refl
recent-all w now t (f ∷ fs) h c = ground (arith, recent-all w now f fs)

-- The loop of `_prune` stops at the first failure that is recent: on a list in time order it keeps
-- as many as there are recent ones.
pub length-drop_old :
    (w now t : ℕ) (fs : List ℕ) → Chronological t fs → length (drop_old w now fs) ≡ recent w now fs
unfolding drop_old
length-drop_old w now t [] c = refl
length-drop_old w now t (f ∷ fs) c =
    ground (arith, length-drop_old w now f fs c.1, recent-all w now f fs)

Chronological-snoc :
    (t now : ℕ) (fs : List ℕ)
    → Chronological t fs
    → All (λ f. f ≤ now) fs
    → t ≤ now
    → Chronological t (fs ++ now ∷ [])
Chronological-snoc t now [] c a h = (h, tt)
Chronological-snoc t now (f ∷ fs) c a h = (c.0, Chronological-snoc f now fs c.1 a.1 a.0)

recent-snoc : (w now : ℕ) (fs : List ℕ) → recent w now (fs ++ now ∷ []) ≡ suc (recent w now fs)
recent-snoc w now [] = ground arith
recent-snoc w now (f ∷ fs) = ground (arith, recent-snoc w now fs)

-- The failures stand in time order, none of them after `last`.
pub record IsOrdered (last : ℕ) (b : CircuitBreaker) : Type 0 where
  pub chronological : Chronological 0 b.failures
  pub past : All (λ f. f ≤ last) b.failures

Chronological-down : (t u : ℕ) (fs : List ℕ) → u ≤ t → Chronological t fs → Chronological u fs
Chronological-down t u [] h c = tt
Chronological-down t u (f ∷ fs) h c = (omega arith, c.1)

drop_old-Chronological :
    (w now t : ℕ) (fs : List ℕ) → Chronological t fs → Chronological t (drop_old w now fs)
unfolding drop_old
drop_old-Chronological w now t [] c = tt
drop_old-Chronological w now t (f ∷ fs) c =
    ground (
      arith,
      Chronological-down f t (drop_old w now fs) c.0 (drop_old-Chronological w now f fs c.1),
    )

drop_old-past :
    (w now m : ℕ) (fs : List ℕ) → All (λ f. f ≤ m) fs → All (λ f. f ≤ m) (drop_old w now fs)
unfolding drop_old
drop_old-past w now m [] a = tt
drop_old-past w now m (f ∷ fs) a = ground (arith, drop_old-past w now m fs a.1)

past_mono : (m n : ℕ) (fs : List ℕ) → m ≤ n → All (λ f. f ≤ m) fs → All (λ f. f ≤ n) fs
past_mono m n [] h a = tt
past_mono m n (f ∷ fs) h a = (omega arith, past_mono m n fs h a.1)

later-IsOrdered : (m n : ℕ) (b : CircuitBreaker) → m ≤ n → IsOrdered m b → IsOrdered n b
later-IsOrdered m n b h o = record {
  chronological = o.chronological;
  past = past_mono m n b.failures h o.past;
}

prune-IsOrdered : (now : ℕ) (b : CircuitBreaker) → IsOrdered now b → IsOrdered now (prune now b)
unfolding prune
prune-IsOrdered now b o = record {
  chronological = drop_old-Chronological b.window now 0 b.failures o.chronological;
  past = drop_old-past b.window now now b.failures o.past;
}

count_failure-IsOrdered :
    (now : ℕ) (b : CircuitBreaker) → IsOrdered now b → IsOrdered now (count_failure now b)
unfolding count_failure
count_failure-IsOrdered now b o = ground (
  arith,
  prune-IsOrdered now (record b { failures = b.failures ++ now ∷ [] })
      (record {
        chronological = Chronological-snoc 0 now b.failures o.chronological o.past (omega arith);
        past = All-append (λ f. f ≤ now) b.failures (now ∷ []) o.past (omega arith);
      }),
)

step-IsOrdered :
    (b : CircuitBreaker) (now : ℕ) (c : Call) → IsOrdered now b → IsOrdered now (step b (now, c))
unfolding step
step-IsOrdered b now asks o = unfold state in ground arith
step-IsOrdered b now allows o = ground arith
step-IsOrdered b now succeeds o = ground (arith, prune-IsOrdered now b o)
step-IsOrdered b now fails o = ground (arith, count_failure-IsOrdered now b o)

-- The calls of a run stand in time order, between two times.
abbrev pub InOrder : ℕ → ℕ → List (ℕ × Call) → Type 0
InOrder first last [] = first ≤ last
InOrder first last (c ∷ cs) = (first ≤ c.0) × InOrder c.0 last cs

pub run-IsOrdered :
    (first last : ℕ) (b : CircuitBreaker) (cs : List (ℕ × Call))
    → InOrder first last cs
    → IsOrdered first b
    → IsOrdered last (run b cs)
unfolding run
run-IsOrdered first last b [] i o = later-IsOrdered first last b i o
run-IsOrdered first last b ((now, c) ∷ cs) i o =
    run-IsOrdered now last (step b (now, c)) cs i.1
      (step-IsOrdered b now c (later-IsOrdered first now b i.0 o))

closed-opens_iff :
    (b : CircuitBreaker) (now : ℕ)
    → b.current ≡ closed
    → IsOrdered now b
    → ((on_failure now b).current ≡ open_)
      ↔ (b.failure_threshold ≤ suc (recent b.window now b.failures))
unfolding on_failure
closed-opens_iff b now k o = (opens, reached)
  where
    kept :
        length (drop_old b.window now (b.failures ++ now ∷ []))
        ≡ suc (recent b.window now b.failures)
    kept =
        length-drop_old b.window now 0 (b.failures ++ now ∷ [])
          (Chronological-snoc 0 now b.failures o.chronological o.past (omega arith))
        ∙ recent-snoc b.window now b.failures

    opens :
        (on_failure now b).current ≡ open_
        → b.failure_threshold ≤ suc (recent b.window now b.failures)
    opens h = ground (arith, kept)

    reached :
        b.failure_threshold ≤ suc (recent b.window now b.failures)
        → (on_failure now b).current ≡ open_
    reached h = ground (arith, kept)

-- After any calls of a new breaker in time order, a failure reported at `now` while it is CLOSED
-- opens it exactly when that failure and the recorded ones no older than `window` ticks reach the
-- threshold.
pub on_failure-opens_iff :
    (s : Settings) (cs : List (ℕ × Call)) (now : ℕ)
    → InOrder 0 now cs
    → (run (new s) cs).current ≡ closed
    → let b = run (new s) cs in
      ((on_failure now b).current ≡ open_)
      ↔ (b.failure_threshold ≤ suc (recent b.window now b.failures))
on_failure-opens_iff s cs now i k =
    closed-opens_iff (run (new s) cs) now k
      (run-IsOrdered 0 now (new s) cs i (unfold new in record { chronological = tt; past = tt }))

-- The calls of a run that fall in the cooldown from `t` on.
abbrev pub InCooldown : ℕ → ℕ → List (ℕ × Call) → Type 0
InCooldown t len [] = Unit
InCooldown t len (c ∷ cs) = (t ≤ c.0) × (c.0 < t + len) × InCooldown t len cs

pub record OpenSince (t len : ℕ) (b : CircuitBreaker) : Type 0 where
  pub is_open : b.current ≡ open_
  pub later : t ≤ b.opened_at
  pub cooldown : b.open_time ≡ len

step-OpenSince :
    (t len : ℕ) (b : CircuitBreaker) (c : ℕ × Call)
    → t ≤ c.0
    → c.0 < t + len
    → OpenSince t len b
    → OpenSince t len (step b c)
unfolding step
step-OpenSince t len b (now, asks) l u h = unfold state in ground arith
step-OpenSince t len b (now, allows) l u h = ground arith
step-OpenSince t len b (now, succeeds) l u h = ground arith
step-OpenSince t len b (now, fails) l u h = ground arith

run-OpenSince :
    (t len : ℕ) (b : CircuitBreaker) (cs : List (ℕ × Call))
    → InCooldown t len cs
    → OpenSince t len b
    → OpenSince t len (run b cs)
unfolding run
run-OpenSince t len b [] i h = h
run-OpenSince t len b (c ∷ cs) i h =
    run-OpenSince t len (step b c) cs i.2 (step-OpenSince t len b c i.0 i.1 h)

-- An OPEN breaker admits no call for `open_time` ticks from its opening on, whatever calls of its
-- methods come in that time, reports of success and failure included.
pub open_rejects :
    (b : CircuitBreaker) (cs : List (ℕ × Call)) (now : ℕ)
    → b.current ≡ open_
    → InCooldown b.opened_at b.open_time cs
    → b.opened_at ≤ now
    → now < b.opened_at + b.open_time
    → (allow now (run b cs)).1 ≡ false
unfolding allow
open_rejects b cs now k i l u = ground (
  arith,
  run-OpenSince b.opened_at b.open_time b cs i
      (record { is_open = k; later = omega arith; cooldown = refl }),
)
