-- ===== src/Circuit/HalfOpen.antt =====
-- The trials of a HALF_OPEN breaker, and the way back to CLOSED.
use dbkit_sql.Prelude.{
  ℕ, suc, ◌+◌, ◌-◌, ◌≤◌, ◌<◌, ◌≡◌, refl, ap, ◌∙◌, ◌⊎◌, inl, inr, Bool, true, false, List, [], ◌∷◌,
  arith, length, min,
}
use dbkit_sql.Circuit.{
  CircuitBreaker, closed, open_, half_open, Call, asks, allows, succeeds, fails, succeeds, fails,
  state, allow, on_success, on_failure, step, run,
}

-- The answers of `allow` over a list of times, with no feedback between.
unfoldable pub answers : CircuitBreaker → List ℕ → List Bool
answers b [] = []
answers b (now ∷ ts) = let (b', ok) = allow now b in ok ∷ answers b' ts

abbrev pub admitted : List Bool → ℕ
admitted [] = 0
admitted (true ∷ bs) = suc (admitted bs)
admitted (false ∷ bs) = admitted bs

allow_trial :
    (b : CircuitBreaker) (now : ℕ)
    → b.current ≡ half_open
    → b.half_open_calls < b.half_open_max_calls
    → allow now b ≡ (record b { half_open_calls = b.half_open_calls + 1 }, true)
unfolding allow
allow_trial b now k h = ground arith

allow_exhausted :
    (b : CircuitBreaker) (now : ℕ)
    → b.current ≡ half_open
    → b.half_open_max_calls ≤ b.half_open_calls
    → allow now b ≡ (b, false)
unfolding allow
allow_exhausted b now k h = ground arith

exhausted_answers :
    (b : CircuitBreaker) (ts : List ℕ)
    → b.current ≡ half_open
    → b.half_open_max_calls ≤ b.half_open_calls
    → admitted (answers b ts) ≡ 0
unfolding answers
exhausted_answers b [] k h = refl
exhausted_answers b (now ∷ ts) k h = rw (allow_exhausted b now k h) (exhausted_answers b ts k h)

-- Of calls that ask a HALF_OPEN breaker while no outcome is reported, at whatever times, exactly the
-- first `half_open_max_calls - half_open_calls` are admitted, as far as there are so many.
pub admitted-answers :
    (b : CircuitBreaker) (ts : List ℕ)
    → b.current ≡ half_open
    → admitted (answers b ts) ≡ min (length ts) (b.half_open_max_calls - b.half_open_calls)
unfolding answers
admitted-answers b [] k = omega arith
admitted-answers b (now ∷ ts) k = elim (split b.half_open_calls b.half_open_max_calls) [
  | inl room ↦
      rw (allow_trial b now k room) (
        omega (arith, admitted-answers (record b { half_open_calls = b.half_open_calls + 1 }) ts k))
  | inr full ↦ rw (allow_exhausted b now k full) (omega (arith, exhausted_answers b ts k full))
]
  where
    split : (m n : ℕ) → (m < n) ⊎ (n ≤ m)
    split m n = grind arith

-- A call that only asks.
abbrev pub IsAsking : Call → Type 0
IsAsking asks = Unit
IsAsking allows = Unit
IsAsking _ = ⊥

abbrev pub AllAsking : List (ℕ × Call) → Type 0
AllAsking [] = Unit
AllAsking (c ∷ cs) = IsAsking c.1 × AllAsking cs

step_exhausted :
    (b : CircuitBreaker) (c : ℕ × Call)
    → b.current ≡ half_open
    → b.half_open_max_calls ≤ b.half_open_calls
    → IsAsking c.1
    → step b c ≡ b
unfolding step
step_exhausted b (now, asks) k h a = unfold state in ground arith
step_exhausted b (now, allows) k h a = ground arith
step_exhausted b (now, succeeds) k h a = elim a [ ]
step_exhausted b (now, fails) k h a = elim a [ ]

run_exhausted :
    (b : CircuitBreaker) (cs : List (ℕ × Call))
    → b.current ≡ half_open
    → b.half_open_max_calls ≤ b.half_open_calls
    → AllAsking cs
    → run b cs ≡ b
unfolding run
run_exhausted b [] k h a = refl
run_exhausted b (c ∷ cs) k h a =
    ap (λ d. run d cs) (step_exhausted b c k h a.0) ∙ run_exhausted b cs k h a.1

-- A HALF_OPEN breaker whose trials are used up never changes by being asked, however much time
-- passes: until an outcome is reported it rejects every call.
pub exhausted_stuck :
    (b : CircuitBreaker) (cs : List (ℕ × Call)) (now : ℕ)
    → b.current ≡ half_open
    → b.half_open_max_calls ≤ b.half_open_calls
    → AllAsking cs
    → (run b cs ≡ b) × ((allow now (run b cs)).1 ≡ false)
exhausted_stuck b cs now k h a =
    let same = run_exhausted b cs k h a in (same, rw same (rw (allow_exhausted b now k h) refl))

-- From the end of the cooldown on, an OPEN breaker admits a trial if its settings allow any; a
-- success reported then closes it with no failure on record, a failure opens it anew at that time.
pub recovery :
    (b : CircuitBreaker) (now later : ℕ)
    → b.current ≡ open_
    → b.opened_at + b.open_time ≤ now
    → 0 < b.half_open_max_calls
    → let (b', admits) = allow now b in
      (admits ≡ true)
      × ((on_success later b').current ≡ closed)
      × ((on_success later b').failures ≡ [])
      × ((on_failure later b').current ≡ open_)
      × ((on_failure later b').opened_at ≡ later)
unfolding allow on_success on_failure
recovery b now later k h p = ground arith
