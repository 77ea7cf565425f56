-- ===== src/Bulk/Plan.antt =====
-- `_BulkPlan` of _async/database.py and `columnar_params` of postgres/unnest.py: the parameters of a batch,
-- as they are, or transposed into one array for each column. `none` is the KeyError of a row that lacks a
-- column. The columns are the keys of a row, so none stands twice.
pub mod Server
pub mod Unnest
use dbkit_sql.Prelude.{ℕ, zero, suc, String, Option, none, some, List, [], ◌∷◌, string_eq}
use dbkit_sql.Prelude.Dict.{Dict, get}
use dbkit_sql.Bulk.{Value, Row}

abbrev pub with_head : {A : Type 0} → Option A → Option (List A) → Option (List A)
with_head none o = none
with_head (some a) none = none
with_head (some a) (some rest) = some (a ∷ rest)

-- `[row[c] for row in rows]`
unfoldable pub column_values : String → List Row → Option (List Value)
unfolding get
column_values c [] = some []
column_values c (r ∷ rs) = with_head (get r c) (column_values c rs)

abbrev pub keyed : {A : Type 0} → String → Option A → Option (String × A)
keyed c none = none
keyed c (some a) = some (c, a)

-- `columnar_params`
unfoldable pub columnar_params : List Row → List String → Option (Dict String (List Value))
unfolding column_values
columnar_params rows [] = some []
columnar_params rows (c ∷ cs) = with_head (keyed c (column_values c rows)) (columnar_params rows cs)

pub data Params : Type 0 where
  rows : List Row → Params
  arrays : Dict String (List Value) → Params

-- `for_batch`, whose statement is the plan's own
unfoldable pub for_batch : Option (List String) → List Row → Option Params
unfolding columnar_params
for_batch none batch = some (rows batch)
for_batch (some columns) batch = elim (columnar_params batch columns) [
  | none ↦ none
  | some d ↦ some (arrays d)
]
