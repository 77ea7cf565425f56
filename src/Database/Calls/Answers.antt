-- ===== src/Database/Calls/Answers.antt =====
-- How a call of the facade ends.
use dbkit_sql.Prelude.{
  ℕ, ℤ, List, suc, ◌≡◌, refl, sym, subst, String, Option, none, some, Bool, true, false, Result, ok,
  err, ◌⊎◌, inl, inr,
}
use dbkit_sql.Prelude.Dict.{Dict}
use dbkit_sql.Errors.{DatabaseError, overloaded, make, no_context}
use dbkit_sql.Errors.Classify.{Raised, database, raw}
use dbkit_sql.Circuit.{CircuitBreaker}
use dbkit_sql.Query.{QueryArgument, as_query}
use dbkit_sql.Connection.{is_cancellation}
use dbkit_sql.Retry.{Request, Run, Outcome, returned, raised, escaped}
use dbkit_sql.Retry.Trace.{run_result}
use dbkit_sql.Transaction.{no_connection}
use dbkit_sql.Mapping.{MapTo, Mapped}
use dbkit_sql.Fetch.{
  ConnectionScope, ResultMethods, fetch_all as scope_fetch_all, fetch_one as scope_fetch_one,
  fetch_optional as scope_fetch_optional, fetch_value as scope_fetch_value,
  fetch_values as scope_fetch_values, execute as scope_execute,
}
use dbkit_sql.Fetch.Raising.{Raises, methods-Raises}
use dbkit_sql.Executor.Scope.{Target, scope}
use dbkit_sql.Executor.Raising.{RaisesIn, scope-Raises, scope-fails}
use dbkit_sql.Executor.Resilience.{
  Circumstances, attempt, as_attempt, finished, error_of, execute_with_resilience,
}
use dbkit_sql.Database.Calls.{
  Server, attempts_of, run_call, fetch_all, fetch_one, fetch_optional, fetch_value, fetch_values,
  execute,
}

-- The end of one call: a value, a DatabaseError, or an escape, for which a cancellation is to blame.
abbrev pub Ends : {V : Type 0} → (ℕ → Option Raised) → Option (Outcome V) → Type 0
Ends {V} stops o =
    ((v : V) × (o ≡ some (returned v)))
    ⊎ (((e : DatabaseError) × (o ≡ some (raised e)))
        ⊎ ((o ≡ some escaped)
            × (n : ℕ) × (e : Raised) × (stops n ≡ some e)
            × (is_cancellation e ≡ true)))

module _ (sanitize : String → String) (t : Target) (commits : Bool) {V : Type 0} where
  -- What the scope of an attempt raises.
  abbrev pub scope_error : Circumstances V → Option Raised
  scope_error c = error_of (scope sanitize t c.world commits (error_of c.body) no_connection).1

  raises_in : (r : Result Raised V) → Raises r → RaisesIn (error_of r)
  raises_in (ok v) h = tt
  raises_in (err e) h = h

  finished-Ends :
      (n : ℕ) (stops : ℕ → Option Raised) (body : Result Raised V) (s : Result Raised (Unit {0}))
      → Raises s
      → stops n ≡ error_of s
      → ((e : Raised) → body ≡ err e → s ≡ ok tt → ⊥)
      → Ends stops (some (finished body s))
  finished-Ends n stops body (err (database e)) h g k = inr (inl (e, refl))
  finished-Ends n stops body (err (raw r)) (inl c) g k = inr (inr (refl, n, raw r, g, c))
  finished-Ends n stops body (err (raw r)) (inr (d, e)) g k = cc
  finished-Ends n stops (ok v) (ok u) h g k = inl (v, refl)
  finished-Ends n stops (err e) (ok u) h g k = absurd (k e refl refl)

  attempt-Ends :
      (n : ℕ) (env : ℕ → Circumstances V)
      → Raises (env n).body
      → Ends (λ k. scope_error (env k)) (some (attempt sanitize t commits (env n)))
  unfolding attempt
  attempt-Ends n env h = by_limiter (env n).refused_by
    where
      c : Circumstances V
      c = env n

      ended : Result Raised (Unit {0})
      ended = (scope sanitize t c.world commits (error_of c.body) no_connection).1

      fails :
          (body : Result Raised V) (e : Raised)
          → body ≡ err e
          → (scope sanitize t c.world commits (error_of body) no_connection).1 ≡ ok tt
          → ⊥
      fails (ok v) e g k = cc
      fails (err x) e g k = scope-fails sanitize t c.world commits x k

      by_limiter :
          (o : Option String)
          → Ends
              (λ k. scope_error (env k))
              (some (elim o [
                | some tier ↦ raised (make overloaded "concurrency limit reached" none no_context)
                | none ↦ finished c.body ended
              ]))
      by_limiter (some tier) = inr (inl (_, refl))
      by_limiter none =
          finished-Ends n (λ k. scope_error (env k)) c.body ended
            (scope-Raises sanitize t c.world commits (error_of c.body) (raises_in c.body h)) refl
            (fails c.body)

  run-Ends :
      (r : Request) (env : ℕ → Circumstances V) (b : Option CircuitBreaker)
      → ((n : ℕ) → Raises (env n).body)
      → Ends (λ k. scope_error (env k)) (execute_with_resilience sanitize t commits r env b).result
  unfolding execute_with_resilience
  run-Ends r env b h = elim (run_result r (λ n. as_attempt sanitize t commits (env n)) b) [
    | inl rejected ↦ inr (inl (_, rejected))
    | inr (k, calls, last) ↦
        subst (Ends (λ n. scope_error (env n))) (sym last) (attempt-Ends (suc k) env (h (suc k)))
  ]

error_of-some : (s : Result Raised (Unit {0})) (e : Raised) → error_of s ≡ some e → s ≡ err e
error_of-some (ok u) e h = cc
error_of-some (err x) e h = cc

module _ (sanitize : String → String) (t : Target) (held : ConnectionScope) (r : Request)
    (frames : ℕ → Circumstances (Unit {0})) (b : Option CircuitBreaker) where
  -- A value, a DatabaseError, or an escape: then the scope of an attempt, around a block that ended as the
  -- method's block of that attempt did, raised a cancellation.
  abbrev pub Answered : {V : Type 0} → Bool → (ℕ → Result Raised V) → Run V → Type 0
  Answered {V} commits bodies x =
      ((v : V) × (x.result ≡ some (returned v)))
      ⊎ (((e : DatabaseError) × (x.result ≡ some (raised e)))
          ⊎ ((x.result ≡ some escaped)
              × (n : ℕ) × (e : Raised) × ((scope sanitize t (frames n).world commits
                    (error_of (bodies n)) no_connection).1
                  ≡ err e)
              × (is_cancellation e ≡ true)))

  run_call-Answered :
      {V : Type 0} (commits : Bool) (bodies : ℕ → Result Raised V) (arg : QueryArgument)
      → ((n : ℕ) → Raises (bodies n))
      → Answered commits bodies (run_call sanitize t held r frames b commits bodies arg)
  unfolding run_call
  run_call-Answered commits bodies arg h =
      elim (run-Ends sanitize t commits (record r { query = as_query arg })
        (attempts_of sanitize t held r frames b bodies) b h) [
          | inl value ↦ inl value
          | inr (inl error) ↦ inr (inl error)
          | inr (inr (gone, n, e, stopped, c)) ↦
              inr (inr (gone, n, e, error_of-some _ e stopped, c))
        ]

  -- What the block of each attempt returns or raises, by the method.
  module _ {C V : Type 0} (m : ResultMethods (Dict String C) C) (server : Server C)
      (map_to : MapTo C V) (arg : QueryArgument) where
    abbrev pub all_blocks : ℕ → Result Raised (List (Mapped C V))
    all_blocks n =
        (scope_fetch_all sanitize held m (server.settings n) (server.rows n) map_to arg).1

    abbrev pub one_blocks : ℕ → Result Raised (Mapped C V)
    one_blocks n =
        (scope_fetch_one sanitize held m (server.settings n) (server.rows n) map_to arg).1

    abbrev pub optional_blocks : ℕ → Result Raised (Option (Mapped C V))
    optional_blocks n =
        (scope_fetch_optional sanitize held m (server.settings n) (server.rows n) map_to arg).1

  module _ {C : Type 0} (m : ResultMethods (Dict String C) C) (server : Server C)
      (arg : QueryArgument) where
    abbrev pub value_blocks : ℕ → Result Raised C
    value_blocks n = (scope_fetch_value sanitize held m (server.settings n) (server.rows n) arg).1

    abbrev pub values_blocks : ℕ → Result Raised (List C)
    values_blocks n = (scope_fetch_values sanitize held m (server.settings n) (server.rows n) arg).1

    abbrev pub execute_blocks : ℕ → Result Raised ℤ
    execute_blocks n = (scope_execute sanitize held (server.settings n) (server.row_counts n) arg).1

  -- Once a call of the facade has its engine, breaker and limiter, and where no cancellation arrives while
  -- it waits for a slot or sleeps between two attempts: however often it is retried, and whatever the
  -- server, the driver, the mapping and the breaker do, it ends, and it returns a value, raises a
  -- DatabaseError, or lets through a cancellation that came out of the connection scope of one of its
  -- attempts, around what the method's block did there; this holds of each fetch method and of `execute`.
  pub calls-Answered :
      {C V : Type 0} (m : ResultMethods (Dict String C) C) (server : Server C) (map_to : MapTo C V)
      (arg : QueryArgument)
      → Answered false
          (all_blocks m server map_to arg)
          (fetch_all sanitize t held r frames b m server map_to arg)
        × Answered false
            (one_blocks m server map_to arg)
            (fetch_one sanitize t held r frames b m server map_to arg)
        × Answered false
            (optional_blocks m server map_to arg)
            (fetch_optional sanitize t held r frames b m server map_to arg)
        × Answered false
            (value_blocks m server arg)
            (fetch_value sanitize t held r frames b m server arg)
        × Answered false
            (values_blocks m server arg)
            (fetch_values sanitize t held r frames b m server arg)
        × Answered true
            (execute_blocks m server arg)
            (execute sanitize t held r frames b m server arg)
  unfolding fetch_all fetch_one fetch_optional fetch_value fetch_values execute
  calls-Answered m server map_to arg =
      let proper = λ (n : ℕ).
        methods-Raises sanitize held (server.settings n) m (server.rows n) (server.row_counts n)
          map_to arg in
      (
        run_call-Answered false (all_blocks m server map_to arg) arg (λ n. (proper n).0),
        run_call-Answered false (one_blocks m server map_to arg) arg (λ n. (proper n).1),
        run_call-Answered false (optional_blocks m server map_to arg) arg (λ n. (proper n).2),
        run_call-Answered false (value_blocks m server arg) arg (λ n. (proper n).3),
        run_call-Answered false (values_blocks m server arg) arg (λ n. (proper n).4),
        run_call-Answered true (execute_blocks m server arg) arg (λ n. (proper n).5),
      )
