-- ===== src/Bulk.antt =====
-- _core/bulk.py: batch sizing and slicing. Row counts, column counts and byte counts are natural
-- numbers; a value is known by what `estimate_row_bytes` measures of it.
pub mod Sizing
pub mod Batches
pub mod Modes
pub mod Plan
pub mod Atomic
pub mod Write
mod Examples
use dbkit_sql.Prelude.{
  ℕ, zero, suc, ◌+◌, ◌*◌, ◌/◌, ◌≤◌, ◌<◌, min, max, String, Option, none, some, Bool, true, false,
  List, [], ◌∷◌, map, nat_beq, ltb, if◌then◌else◌, length, take, drop, ◌&&◌,
}
use dbkit_sql.Prelude.Dict.{Dict}

-- A value of a row; `other` is a scalar and `sequence` a list, both with the UTF-8 encoding of `str(value)`.
mutual
  pub data Value : Type 0 where
    null : Value
    bytes : List ℕ → Value
    other : List ℕ → Value
    sequence : List ℕ → Values → Value

  pub data Values : Type 0 where
    no_values : Values
    value : Value → Values → Values

abbrev pub Row : Type 0
Row = Dict String Value

pub record BulkLimits : Type 0 where
  pub max_rows : ℕ
  pub max_params : ℕ
  pub max_payload_bytes : Option ℕ

-- PG_MAX_BIND_PARAMS
abbrev pub pg_max_bind_params : ℕ
pg_max_bind_params = 65535

abbrev value_bytes : Value → ℕ
value_bytes null = 0
value_bytes (bytes b) = length b
value_bytes (other s) = length s
value_bytes (sequence s vs) = length s

unfoldable pub estimate_row_bytes : Row → ℕ
estimate_row_bytes [] = 0
estimate_row_bytes ((k, v) ∷ row) = value_bytes v + estimate_row_bytes row

-- `requested or limits.max_rows`
unfoldable pub requested_or : Option ℕ → ℕ → ℕ
requested_or none d = d
requested_or (some n) d = if nat_beq n 0 then d else n

-- The payload bound, where it is set, a sample is given and the sample is not empty.
unfoldable pub cap_payload : Option ℕ → Option Row → ℕ → ℕ
cap_payload (some limit) (some row) ceiling =
    let row_bytes = estimate_row_bytes row in
    if ltb 0 row_bytes then min ceiling (max (limit / row_bytes) 1) else ceiling
cap_payload limit row ceiling = ceiling

unfoldable pub resolve_batch_rows : ℕ → Option ℕ → BulkLimits → Option Row → ℕ
unfolding requested_or cap_payload
resolve_batch_rows n_columns requested limits sample =
    if nat_beq n_columns 0
    then max (requested_or requested limits.max_rows) 1
    else max
        (cap_payload limits.max_payload_bytes sample (
          min (min (requested_or requested limits.max_rows) limits.max_rows)
            (max (limits.max_params / n_columns) 1)))
        1

module _ {A : Type 0} where
  -- The slices `rows[start : start + size]`; each one shortens the rest, so fuel for the rows is enough.
  unfoldable pub slices : ℕ → ℕ → List A → List (List A)
  slices zero size rows = []
  slices (suc fuel) size [] = []
  slices (suc fuel) size (r ∷ rs) = take size (r ∷ rs) ∷ slices fuel size (drop size (r ∷ rs))

  unfoldable pub iter_batches : List A → ℕ → List (List A)
  unfolding slices
  iter_batches rows batch_size =
      slices (length rows) (if nat_beq batch_size 0 then 1 else batch_size) rows

abbrev keys : Row → List String
keys row = map (λ p. p.0) row

-- `column_names`: those of the first row
unfoldable pub column_names : List Row → List String
column_names [] = []
column_names (first ∷ rows) = keys first
