-- ===== src/Bulk/Sizing.antt =====
-- The batch size keeps every limit.
use native.Mathlib.Nat.{div-mul-le_self, le_trans, mul-le-mul_right}
use dbkit_sql.Prelude.{
  ℕ, ◌*◌, ◌/◌, ◌≤◌, ◌<◌, min, max, Option, none, some, ◌≡◌, ◌⊎◌, inl, inr, arith,
}
use dbkit_sql.Bulk.{
  BulkLimits, Row, estimate_row_bytes, requested_or, cap_payload, resolve_batch_rows,
}

cap_payload-le : (limit : Option ℕ) (row : Option Row) (c : ℕ) → cap_payload limit row c ≤ c
unfolding cap_payload
cap_payload-le (some limit) (some row) c = ground arith
cap_payload-le (some limit) none c = omega arith
cap_payload-le none row c = omega arith

small-or-large : (q : ℕ) → (q ≤ 1) ⊎ (1 ≤ q)
small-or-large q = grind arith

times_quotient : (b limit n : ℕ) → b ≤ max (limit / n) 1 → (b ≤ 1) ⊎ (b * n ≤ limit)
times_quotient b limit n h = elim (small-or-large (limit / n)) [
  | inl small ↦ inl (omega arith)
  | inr large ↦
      let fits : b ≤ limit / n = omega arith in
      inr (le_trans (mul-le-mul_right n fits) (div-mul-le_self limit n))
]

cap_payload-row :
    (limit : ℕ) (row : Row) (c : ℕ)
    → 0 < estimate_row_bytes row
    → cap_payload (some limit) (some row) c ≤ max (limit / estimate_row_bytes row) 1
unfolding cap_payload
cap_payload-row limit row c q = ground arith

module _ (n : ℕ) (requested : Option ℕ) (l : BulkLimits) (row : Row) where
  abbrev ceiling : ℕ
  ceiling = min (min (requested_or requested l.max_rows) l.max_rows) (max (l.max_params / n) 1)

  resolve_batch_rows_lem :
      0 < n
      → resolve_batch_rows n requested l (some row)
        ≡ max (cap_payload l.max_payload_bytes (some row) ceiling) 1
  unfolding resolve_batch_rows
  resolve_batch_rows_lem h = ground arith

-- For rows with columns the size is at least 1 and at most `max_rows` (or 1), a batch binds no more than
-- `max_params` parameters unless it is a single row, and by the estimate of the sample row it fills no
-- more than the payload budget unless it is a single row.
pub resolve_batch_rows_limits :
    (n limit : ℕ) (requested : Option ℕ) (l : BulkLimits) (row : Row)
    → 0 < n
    → l.max_payload_bytes ≡ some limit
    → 0 < estimate_row_bytes row
    → let b = resolve_batch_rows n requested l (some row) in
      (1 ≤ b)
      × (b ≤ max l.max_rows 1)
      × ((b ≤ 1) ⊎ (b * n ≤ l.max_params))
      × ((b ≤ 1) ⊎ (b * estimate_row_bytes row ≤ limit))
resolve_batch_rows_limits n limit requested l row h p q =
    let c = cap_payload l.max_payload_bytes (some row) (ceiling n requested l row) in
    let below = cap_payload-le l.max_payload_bytes (some row) (ceiling n requested l row) in
    let light : c ≤ max (limit / estimate_row_bytes row) 1 =
      rw p (cap_payload-row limit row (ceiling n requested l row) q) in
    rw (resolve_batch_rows_lem n requested l row h) (
      omega arith,
      omega (arith, below),
      times_quotient (max c 1) l.max_params n (omega (arith, below)),
      times_quotient (max c 1) limit (estimate_row_bytes row) (omega (arith, light)),
    )
