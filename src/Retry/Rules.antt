-- ===== src/Retry/Rules.antt =====
-- How the loop is reasoned about: what a delay means, and one rule for each way a pass can end.
use dbkit_sql.Prelude.{
  ℕ, zero, suc, ◌+◌, ◌<◌, Option, none, some, Bool, true, false, ◌≡◌, refl, arith,
}
use dbkit_sql.Errors.{DatabaseError}
use dbkit_sql.Circuit.{CircuitBreaker}
use dbkit_sql.Policies.{backoff_delay, should_retry}
use dbkit_sql.Retry.{
  Attempt, Outcome, Request, Run, returned, raised, escaped, circuit_error, next_delay, stopped,
  after_sleep, exhausted, retry_or_raise, attempt_once, pass, loop, gate,
}

-- Everything that a sleep tells of the failure before it.
pub record MaySleep {V : Type 0} (r : Request) (n : ℕ) (a : Attempt V) (d : ℕ) (e : DatabaseError)
    : Type 0 where
  pub failed : a.outcome ≡ raised e
  pub eligible : should_retry e r.query r.retry n r.override ≡ true
  pub is_backoff : d ≡ backoff_delay n r.retry a.rand
  pub in_budget : a.elapsed_at + d < r.began + r.retry.maximum_total
  pub in_time : (t : ℕ) → r.deadline ≡ some t → a.deadline_at + d < t

next_delay-cases :
    {V : Type 0} (r : Request) (n : ℕ) (a : Attempt V) (e : DatabaseError) (d : ℕ)
    → a.outcome ≡ raised e
    → next_delay r n a e ≡ some d
    → MaySleep r n a d e
unfolding next_delay
next_delay-cases r n a e d o h = record {
  failed = o;
  eligible = ground arith;
  is_backoff = ground arith;
  in_budget = ground arith;
  in_time = λ t p. ground arith;
}

-- One pass at attempt `n`: `Q` is known of the rest of the run, `P` is wanted of the whole.
module _ {ℓ} {V : Type 0} (r : Request) (env : ℕ → Attempt V) (n : ℕ) (P Q : Run V → Type ℓ)
    (rejected : (b : Option CircuitBreaker) → P (stopped (raised (circuit_error r)) b 0))
    (ended : (o : Outcome V) (b : Option CircuitBreaker) → (env n).outcome ≡ o → P (stopped o b 1))
    (slept : (d : ℕ) (e : DatabaseError) (rest : Run V)
      → MaySleep r n (env n) d e
      → Q rest
      → P (after_sleep n d rest)) where
  retry-rule :
      (e : DatabaseError) (o : Option ℕ) (b : Option CircuitBreaker)
      (rest : Option CircuitBreaker → Run V)
      → (env n).outcome ≡ raised e
      → next_delay r n (env n) e ≡ o
      → ((b' : Option CircuitBreaker) → Q (rest b'))
      → P (retry_or_raise n e o b rest)
  retry-rule e none b rest p q ih = ended (raised e) b p
  retry-rule e (some d) b rest p q ih =
      slept d e (rest b) (next_delay-cases r n (env n) e d p q) (ih b)

  attempt-rule :
      (o : Outcome V) (b : Option CircuitBreaker) (rest : Option CircuitBreaker → Run V)
      → (env n).outcome ≡ o
      → ((b' : Option CircuitBreaker) → Q (rest b'))
      → P (attempt_once r n (env n) o b rest)
  attempt-rule (returned v) b rest p ih = ended (returned v) _ p
  attempt-rule (raised e) b rest p ih = retry-rule e _ _ rest p refl ih
  attempt-rule escaped b rest p ih = ended escaped b p

  pub pass-rule :
      (g : Option CircuitBreaker × Bool) (rest : Option CircuitBreaker → Run V)
      → ((b' : Option CircuitBreaker) → Q (rest b'))
      → P (pass r n (env n) g rest)
  pass-rule (b, true) rest ih = attempt-rule (env n).outcome b rest refl ih
  pass-rule (b, false) rest ih = rejected b

module _ {ℓ} {V : Type 0} (r : Request) (env : ℕ → Attempt V) (P : ℕ → Run V → Type ℓ)
    (out : (n : ℕ) (b : Option CircuitBreaker) → P n (exhausted b))
    (rejected : (n : ℕ) (b : Option CircuitBreaker) → P n (stopped (raised (circuit_error r)) b 0))
    (ended : (n : ℕ) (o : Outcome V) (b : Option CircuitBreaker)
      → (env n).outcome ≡ o
      → P n (stopped o b 1))
    (slept : (n d : ℕ) (e : DatabaseError) (rest : Run V)
      → MaySleep r n (env n) d e
      → P (suc n) rest
      → P n (after_sleep n d rest)) where
  -- What each way to end a pass gives, and a sleep keeps, holds of the whole run.
  pub loop-induction : (fuel n : ℕ) (b : Option CircuitBreaker) → P n (loop fuel r env n b)
  unfolding loop
  loop-induction zero n b = out n b
  loop-induction (suc fuel) n b =
      pass-rule r env n (P n) (P (suc n)) (rejected n) (ended n) (slept n)
        (gate (env n).started_at b) (λ b'. loop fuel r env (suc n) b')
        (λ b'. loop-induction fuel (suc n) b')
