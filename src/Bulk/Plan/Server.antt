-- ===== src/Bulk/Plan/Server.antt =====
-- What PostgreSQL makes of the arrays of the strategy `unnest`: rows of their entries, side by side, after it
-- has flattened an array of arrays. The text of the statement is not modelled.
use dbkit_sql.Prelude.{ℕ, zero, suc, ◌≡◌, refl, String, List, [], ◌∷◌, ◌++◌}
use dbkit_sql.Prelude.Dict.{Dict}
use dbkit_sql.Bulk.{Value, null, bytes, other, sequence, Values, no_values, value, Row}

-- The first entries, and the arrays without them.
abbrev pub heads : Dict String (List Value) → Row
heads [] = []
heads ((c, []) ∷ d) = heads d
heads ((c, v ∷ vs) ∷ d) = (c, v) ∷ heads d

abbrev pub tails : Dict String (List Value) → Dict String (List Value)
tails [] = []
tails ((c, []) ∷ d) = (c, []) ∷ tails d
tails ((c, v ∷ vs) ∷ d) = (c, vs) ∷ tails d

-- The first rows of entries side by side, so many of them.
abbrev pub side_by_side : ℕ → Dict String (List Value) → List Row
side_by_side zero d = []
side_by_side (suc n) d = heads d ∷ side_by_side n (tails d)

-- The scalars in a value, and in an array of values.
abbrev mutual
  pub scalars_of : Value → List Value
  scalars_of null = null ∷ []
  scalars_of (bytes b) = bytes b ∷ []
  scalars_of (other s) = other s ∷ []
  scalars_of (sequence s vs) = all_scalars vs

  all_scalars : Values → List Value
  all_scalars no_values = []
  all_scalars (value v vs) = scalars_of v ++ all_scalars vs

abbrev pub flat_array : List Value → List Value
flat_array [] = []
flat_array (v ∷ vs) = scalars_of v ++ flat_array vs

abbrev pub flattened : Dict String (List Value) → Dict String (List Value)
flattened [] = []
flattened ((c, vs) ∷ d) = (c, flat_array vs) ∷ flattened d

-- `SELECT * FROM unnest(:c1, :c2, ...)`, so many rows of it
abbrev pub unnest : ℕ → Dict String (List Value) → List Row
unnest n d = side_by_side n (flattened d)

abbrev pub IsScalar : Value → Type 0
IsScalar null = Unit
IsScalar (bytes b) = Unit
IsScalar (other s) = Unit
IsScalar (sequence s vs) = ⊥

pub scalars_of-scalar : (v : Value) → IsScalar v → scalars_of v ≡ v ∷ []
scalars_of-scalar null h = refl
scalars_of-scalar (bytes b) h = refl
scalars_of-scalar (other s) h = refl
scalars_of-scalar (sequence s vs) h = absurd h
