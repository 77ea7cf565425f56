-- ===== src/Mapping/Rows.antt =====
-- What mapping does to rows.
use dbkit_sql.Prelude.{
  ◌≡◌, refl, String, Option, none, some, List, [], ◌∷◌, Result, ok, err, ◌>>=◌, string_eq,
}
use dbkit_sql.Prelude.Dict.{Dict}
use dbkit_sql.Errors.{DatabaseError, mapping_error}
use dbkit_sql.Mapping.{
  MapTo, Mapped, rows_as_they_are, plain_dict, typed_dict, unsupported, dataclass, model, custom,
  same_row, copied, built, matching, caught, mapping_failure, build_mapper, map_each, map_rows,
}

abbrev pub RowOutcome :
    {C V : Type 0} → (Mapped C V → Type 0) → Result DatabaseError (Mapped C V) → Type 0
RowOutcome P (ok m) = P m
RowOutcome P (err e) = e.cls ≡ mapping_error

caught-RowOutcome :
    (C : Type 0) {V : Type 0} (o : Option V)
    → RowOutcome (λ (m : Mapped C V). (v : V) × (o ≡ some v) × (m ≡ built v)) (caught o)
unfolding mapping_failure
caught-RowOutcome C none = refl
caught-RowOutcome C (some v) = (v, refl, refl)

module _ {C V : Type 0} where
  -- What a row may become: every way of mapping described apart from the code.
  abbrev pub Becomes : MapTo C V → Dict String C → Mapped C V → Type 0
  Becomes rows_as_they_are row m = m ≡ same_row row
  Becomes plain_dict row m = m ≡ copied row
  Becomes typed_dict row m = m ≡ copied row
  Becomes (dataclass fields construct) row m =
      (v : V) × (construct (matching fields row) ≡ some v) × (m ≡ built v)
  Becomes (model validate) row m = (v : V) × (validate row ≡ some v) × (m ≡ built v)
  Becomes (custom f) row m = (v : V) × (f row ≡ some v) × (m ≡ built v)
  Becomes unsupported row m = ⊥

  -- One mapped row for each row, in their order.
  abbrev pub BecomeAll : MapTo C V → List (Dict String C) → List (Mapped C V) → Type 0
  BecomeAll map_to [] [] = Unit
  BecomeAll map_to [] (m ∷ ms) = ⊥
  BecomeAll map_to (r ∷ rs) [] = ⊥
  BecomeAll map_to (r ∷ rs) (m ∷ ms) = Becomes map_to r m × BecomeAll map_to rs ms

  abbrev pub Outcome :
      MapTo C V → List (Dict String C) → Result DatabaseError (List (Mapped C V)) → Type 0
  Outcome map_to rows (ok ms) = BecomeAll map_to rows ms
  Outcome map_to rows (err e) = e.cls ≡ mapping_error

  map_each-Outcome :
      (map_to : MapTo C V) (mapper : Dict String C → Result DatabaseError (Mapped C V))
      → ((row : Dict String C) → RowOutcome (Becomes map_to row) (mapper row))
      → (rows : List (Dict String C)) → Outcome map_to rows (map_each mapper rows)
  unfolding map_each
  map_each-Outcome map_to mapper h [] = tt
  map_each-Outcome map_to mapper h (r ∷ rs) =
      first (mapper r) (h r) (map_each mapper rs) (map_each-Outcome map_to mapper h rs)
    where
      first :
          (a : Result DatabaseError (Mapped C V))
          → RowOutcome (Becomes map_to r) a
          → (b : Result DatabaseError (List (Mapped C V))) → Outcome map_to rs b
          → Outcome map_to (r ∷ rs) (a >>= λ v. b >>= λ vs. ok (v ∷ vs))
      first (err e) g b k = g
      first (ok m) g (err e) k = k
      first (ok m) g (ok ms) k = (g, k)

  -- Whatever is asked for, the rows are mapped one by one in their order, each as its kind says, where a
  -- dataclass gets just the columns that it has fields for; or else the first failure is raised, and it is
  -- a mapping error.
  pub map_rows-Outcome :
      (map_to : MapTo C V) (rows : List (Dict String C))
      → Outcome map_to rows (map_rows rows map_to)
  unfolding map_rows build_mapper
  map_rows-Outcome rows_as_they_are rows =
      map_each-Outcome rows_as_they_are (λ row. ok (same_row row)) (λ row. refl) rows
  map_rows-Outcome plain_dict rows =
      map_each-Outcome plain_dict (λ row. ok (copied row)) (λ row. refl) rows
  map_rows-Outcome typed_dict rows =
      map_each-Outcome typed_dict (λ row. ok (copied row)) (λ row. refl) rows
  map_rows-Outcome (dataclass fields construct) rows =
      map_each-Outcome (dataclass fields construct)
        (λ row. caught (construct (matching fields row)))
        (λ row. caught-RowOutcome C (construct (matching fields row))) rows
  map_rows-Outcome (model validate) rows =
      map_each-Outcome (model validate) (λ row. caught (validate row))
        (λ row. caught-RowOutcome C (validate row)) rows
  map_rows-Outcome (custom f) rows =
      map_each-Outcome (custom f) (λ row. caught (f row)) (λ row. caught-RowOutcome C (f row)) rows
  map_rows-Outcome unsupported rows = refl
