-- ===== src/Fetch/Raising.antt =====
-- What the methods of a connection scope raise.
use dbkit_sql.Prelude.{
  ◌≡◌, refl, String, Option, none, some, true, List, Result, ok, err, ◌⊎◌, inl, inr, ℤ, ◌>>=◌,
  Bool-cases,
}
use dbkit_sql.Prelude.Dict.{Dict}
use dbkit_sql.Errors.{DatabaseError, Context}
use dbkit_sql.Errors.Classify.{Raised, database}
use dbkit_sql.Connection.{is_cancellation, classified}
use dbkit_sql.Query.{QueryArgument, coerce_statement}
use dbkit_sql.Mapping.{MapTo, map_rows}
use dbkit_sql.Fetch.{
  ConnectionScope, ResultMethods, no_result_found, multiple_results_found, Failure, misses, fails,
  handled, raised_by, as_failure, picked, run_method, execute, map_one, map_option, fetch_all,
  fetch_one, fetch_optional, fetch_value, fetch_values,
}

-- A DatabaseError or a cancellation.
abbrev pub Proper : Raised → Type 0
Proper e = (is_cancellation e ≡ true) ⊎ ((d : DatabaseError) × (e ≡ database d))

abbrev pub Raises : {A : Type 0} → Result Raised A → Type 0
Raises (ok a) = Unit
Raises (err e) = Proper e

pub Raises-classified :
    (sanitize : String → String) (ctx : Context) (e : Raised) → Proper (classified sanitize ctx e)
unfolding classified
Raises-classified sanitize ctx e = elim (Bool-cases (is_cancellation e)) [
  | inl c ↦ rw c (inl c)
  | inr c ↦ rw c (inr (_, refl))
]

Raises-handled :
    (sanitize : String → String) (scope : ConnectionScope) {A : Type 0} (ctx : Context)
    (r : Result Failure A)
    → Raises (handled sanitize scope ctx r)
unfolding handled
Raises-handled sanitize scope ctx (ok a) = tt
Raises-handled sanitize scope ctx (err (misses no_result_found)) = inr (_, refl)
Raises-handled sanitize scope ctx (err (misses multiple_results_found)) = inr (_, refl)
Raises-handled sanitize scope ctx (err (fails e)) = Raises-classified sanitize ctx e

Raises-bind :
    {A B : Type 0} (r : Result Raised A) (f : A → Result Raised B)
    → Raises r
    → ((a : A) → Raises (f a))
    → Raises (r >>= f)
Raises-bind (ok a) f h k = k a
Raises-bind (err e) f h k = h

Raises-raised_by : {A : Type 0} (r : Result DatabaseError A) → Raises (raised_by r)
Raises-raised_by (ok a) = tt
Raises-raised_by (err e) = inr (e, refl)

module _ (sanitize : String → String) (scope : ConnectionScope)
    (answers : String → Option Raised) where
  run_method-Raises :
      {R A B : Type 0} (answer : Result Raised R) (take : Result Raised R → Result Failure A)
      (finish : A → Result Raised B)
      → ((a : A) → Raises (finish a))
      → (arg : QueryArgument) → Raises (run_method sanitize scope answers answer take finish arg).1
  unfolding run_method coerce_statement
  run_method-Raises answer take finish k (QueryArgument.query q) =
      Raises-bind _ finish (Raises-handled sanitize scope _ _) k
  run_method-Raises answer take finish k (QueryArgument.statement s) =
      Raises-bind _ finish (Raises-handled sanitize scope _ _) k
  run_method-Raises answer take finish k (QueryArgument.bare_string s) = inr (_, refl)
  run_method-Raises answer take finish k QueryArgument.unsupported = inr (_, refl)

  map_option-Raises :
      {C V : Type 0} (m : ResultMethods (Dict String C) C)
      (rows : Result Raised (List (Dict String C))) (map_to : MapTo C V)
      (o : Option (Dict String C))
      → Raises (map_option sanitize scope m answers rows map_to o)
  unfolding map_option map_one
  map_option-Raises m rows map_to none = tt
  map_option-Raises m rows map_to (some row) =
      Raises-bind _ (λ v. ok (some v)) (Raises-raised_by _) (λ v. tt)

  -- Whatever the driver, SQLAlchemy and the mapping do, each of the fetch methods and `execute` returns,
  -- or raises a DatabaseError, or lets a cancellation through: no bare driver or SQLAlchemy error gets out.
  pub methods-Raises :
      {C V : Type 0} (m : ResultMethods (Dict String C) C)
      (rows : Result Raised (List (Dict String C))) (row_count : Result Raised ℤ)
      (map_to : MapTo C V) (arg : QueryArgument)
      → Raises (fetch_all sanitize scope m answers rows map_to arg).1
        × Raises (fetch_one sanitize scope m answers rows map_to arg).1
        × Raises (fetch_optional sanitize scope m answers rows map_to arg).1
        × Raises (fetch_value sanitize scope m answers rows arg).1
        × Raises (fetch_values sanitize scope m answers rows arg).1
        × Raises (execute sanitize scope answers row_count arg).1
  unfolding fetch_all fetch_one fetch_optional fetch_value fetch_values execute map_one
  methods-Raises m rows row_count map_to arg = (
    run_method-Raises rows as_failure _ (λ rs. Raises-raised_by (map_rows rs map_to)) arg,
    run_method-Raises rows (picked m.one) _ (λ row. Raises-raised_by _) arg,
    run_method-Raises rows (picked m.one_or_none) _ (λ o. map_option-Raises m rows map_to o) arg,
    run_method-Raises rows (picked m.scalar_one) _ (λ c. tt) arg,
    run_method-Raises rows as_failure _ (λ rs. tt) arg,
    run_method-Raises row_count as_failure _ (λ n. tt) arg,
  )
