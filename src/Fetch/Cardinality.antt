-- ===== src/Fetch/Cardinality.antt =====
-- How many rows `fetch_one` and `fetch_optional` accept, by what SQLAlchemy documents of a result.
use dbkit_sql.Prelude.{
  ◌≡◌, refl, sym, subst, String, Option, none, some, List, [], ◌∷◌, ◌++◌, Result, ok, err, ◌>>=◌,
}
use dbkit_sql.Prelude.Dict.{Dict}
use dbkit_sql.Errors.{DatabaseError, result_error}
use dbkit_sql.Errors.Classify.{Raised, database}
use dbkit_sql.Query.{Query, Statement, query, coerce_statement}
use dbkit_sql.Mapping.{MapTo, Mapped, build_mapper}
use dbkit_sql.Fetch.{
  ConnectionScope, ResultMethods, no_result_found, multiple_results_found, Logged, then_log, runs,
  send, apply_local_settings, handled, context, raised_by, picked, run_method, map_one, map_option,
  fetch_one, fetch_optional,
}

-- `one` and `one_or_none` of a SQLAlchemy result.
pub record CountsRows {R C : Type 0} (m : ResultMethods R C) : Type 0 where
  pub one_of_none : m.one [] ≡ err no_result_found
  pub one_of_one : (r : R) → m.one (r ∷ []) ≡ ok r
  pub one_of_more : (r s : R) (rs : List R) → m.one (r ∷ s ∷ rs) ≡ err multiple_results_found
  pub optional_of_none : m.one_or_none [] ≡ ok none
  pub optional_of_one : (r : R) → m.one_or_none (r ∷ []) ≡ ok (some r)
  pub optional_of_more :
      (r s : R) (rs : List R) → m.one_or_none (r ∷ s ∷ rs) ≡ err multiple_results_found

abbrev pub IsResultError : {A : Type 0} → Result Raised A → Type 0
IsResultError r = (d : DatabaseError) × (r ≡ err (database d)) × (d.cls ≡ result_error)

module _ {C V : Type 0} where
  -- What is made of a single row.
  abbrev pub mapped_row : MapTo C V → Dict String C → Result Raised (Mapped C V)
  mapped_row map_to row = raised_by (build_mapper map_to >>= λ mapper. mapper row)

  abbrev pub GivesOne : MapTo C V → List (Dict String C) → Result Raised (Mapped C V) → Type 0
  GivesOne map_to [] r = IsResultError r
  GivesOne map_to (row ∷ []) r = r ≡ mapped_row map_to row
  GivesOne map_to (row ∷ other ∷ rows) r = IsResultError r

  abbrev pub GivesOptional :
      MapTo C V → List (Dict String C) → Result Raised (Option (Mapped C V)) → Type 0
  GivesOptional map_to [] r = r ≡ ok none
  GivesOptional map_to (row ∷ []) r = r ≡ (mapped_row map_to row >>= λ v. ok (some v))
  GivesOptional map_to (row ∷ other ∷ rows) r = IsResultError r

then_log-ok :
    {A B : Type 0} (a : Logged (Unit {0})) (st : Statement) (r : Result Raised A)
    (f : Result Raised A → Result Raised B)
    → a.1 ≡ ok tt
    → f (then_log a (λ log u. (log ++ runs st ∷ [], r))).1 ≡ f r
then_log-ok (log, ok tt) st r f h = refl
then_log-ok (log, err e) st r f h = cc

module _ (sanitize : String → String) (scope : ConnectionScope) {C V : Type 0}
    (m : ResultMethods (Dict String C) C) (counts : CountsRows m) (answers : String → Option Raised)
    (map_to : MapTo C V) (q : Query) where
  abbrev one_of : List (Dict String C) → Result Raised (Mapped C V)
  one_of rows =
      handled sanitize scope (context sanitize scope (some q)) (picked m.one (ok rows)) >>= λ row.
      map_one sanitize scope m answers (ok rows) map_to row

  one_of-GivesOne : (rows : List (Dict String C)) → GivesOne map_to rows (one_of rows)
  unfolding handled map_one
  one_of-GivesOne [] = rw counts.one_of_none (_, refl, refl)
  one_of-GivesOne (row ∷ []) = rw (counts.one_of_one row) refl
  one_of-GivesOne (row ∷ other ∷ rows) = rw (counts.one_of_more row other rows) (_, refl, refl)

  abbrev optional_of : List (Dict String C) → Result Raised (Option (Mapped C V))
  optional_of rows =
      handled sanitize scope (context sanitize scope (some q)) (picked m.one_or_none (ok rows))
      >>= λ o. map_option sanitize scope m answers (ok rows) map_to o

  optional_of-GivesOptional :
      (rows : List (Dict String C)) → GivesOptional map_to rows (optional_of rows)
  unfolding handled map_option map_one
  optional_of-GivesOptional [] = rw counts.optional_of_none refl
  optional_of-GivesOptional (row ∷ []) = rw (counts.optional_of_one row) refl
  optional_of-GivesOptional (row ∷ other ∷ rows) =
      rw (counts.optional_of_more row other rows) (_, refl, refl)

  -- Once the settings of a query are set, and the server answered with these rows: `fetch_one` gives the
  -- mapping of the row if there is exactly one, and raises a DatabaseResultError for none or several;
  -- `fetch_optional` gives None for none, and refuses several in the same way.
  pub fetch-GivesOne :
      (rows : List (Dict String C))
      → (apply_local_settings scope.is_postgres answers q.settings []).1 ≡ ok tt
      → GivesOne map_to rows (fetch_one sanitize scope m answers (ok rows) map_to (query q)).1
        × GivesOptional map_to rows
            (fetch_optional sanitize scope m answers (ok rows) map_to (query q)).1
  unfolding fetch_one fetch_optional run_method send coerce_statement
  fetch-GivesOne rows h = (
    subst (GivesOne map_to rows)
        (sym (
          then_log-ok (apply_local_settings scope.is_postgres answers q.settings []) q.statement
            (ok rows)
            (λ r.
              handled sanitize scope (context sanitize scope (some q)) (picked m.one r) >>= λ row.
              map_one sanitize scope m answers (ok rows) map_to row)
            h))
        (one_of-GivesOne rows),
    subst (GivesOptional map_to rows)
        (sym (
          then_log-ok (apply_local_settings scope.is_postgres answers q.settings []) q.statement
            (ok rows)
            (λ r.
              handled sanitize scope (context sanitize scope (some q)) (picked m.one_or_none r)
              >>= λ o. map_option sanitize scope m answers (ok rows) map_to o)
            h))
        (optional_of-GivesOptional rows),
  )
