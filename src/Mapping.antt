-- ===== src/Mapping.antt =====
-- `build_mapper` and `map_rows` of _core/result.py. A row is its columns with their values. What the caller
-- gives is outside: the constructor of a dataclass, `model_validate` of a pydantic model and a callable,
-- each of which returns or raises; only the exceptions that are errors are met.
pub mod Rows
use dbkit_sql.Prelude.{
  String, Option, none, some, Bool, true, false, List, [], ◌∷◌, ◌==◌, ◌||◌, string_eq, Result, ok,
  err, if◌then◌else◌, ◌>>=◌,
}
use dbkit_sql.Prelude.Dict.{Dict}
use dbkit_sql.Errors.{DatabaseError, mapping_error, make, no_context}

module _ (C V : Type 0) where
  -- `map_to`; a dataclass has the names of its fields.
  pub data MapTo : Type 0 where
    rows_as_they_are plain_dict typed_dict unsupported : MapTo
    dataclass : List String → (Dict String C → Option V) → MapTo
    model : (Dict String C → Option V) → MapTo
    custom : (Dict String C → Option V) → MapTo

  -- A mapped row: the row itself, a copy of it in a dict, or what the caller's code made of it.
  pub data Mapped : Type 0 where
    same_row : Dict String C → Mapped
    copied : Dict String C → Mapped
    built : V → Mapped

unfoldable pub is_field : String → List String → Bool
is_field k [] = false
is_field k (f ∷ fs) = f == k || is_field k fs

-- `{k: row[k] for k in row if k in field_names}`
unfoldable pub matching : {C : Type 0} → List String → Dict String C → Dict String C
unfolding is_field
matching fields [] = []
matching fields ((k, c) ∷ row) =
    let rest = matching fields row in if is_field k fields then (k, c) ∷ rest else rest

abbrev pub mapping_failure : DatabaseError
unfolding make
mapping_failure = make mapping_error "failed to map row" none no_context

module _ {C V : Type 0} where
  abbrev pub caught : Option V → Result DatabaseError (Mapped C V)
  caught none = err mapping_failure
  caught (some v) = ok (built v)

  unfoldable pub build_mapper :
      MapTo C V → Result DatabaseError (Dict String C → Result DatabaseError (Mapped C V))
  unfolding matching make
  build_mapper rows_as_they_are = ok (λ row. ok (same_row row))
  build_mapper plain_dict = ok (λ row. ok (copied row))
  build_mapper typed_dict = ok (λ row. ok (copied row))
  build_mapper (dataclass fields construct) = ok (λ row. caught (construct (matching fields row)))
  build_mapper (model validate) = ok (λ row. caught (validate row))
  build_mapper (custom f) = ok (λ row. caught (f row))
  build_mapper unsupported = err (make mapping_error "unsupported map_to value" none no_context)

  -- `[mapper(r) for r in rows]`
  unfoldable pub map_each :
      (Dict String C → Result DatabaseError (Mapped C V))
      → List (Dict String C)
      → Result DatabaseError (List (Mapped C V))
  map_each mapper [] = ok []
  map_each mapper (r ∷ rs) = mapper r >>= λ v. map_each mapper rs >>= λ vs. ok (v ∷ vs)

  unfoldable pub map_rows :
      List (Dict String C) → MapTo C V → Result DatabaseError (List (Mapped C V))
  unfolding build_mapper map_each
  map_rows rows map_to = build_mapper map_to >>= λ mapper. map_each mapper rows
