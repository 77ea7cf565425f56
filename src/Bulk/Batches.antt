-- ===== src/Bulk/Batches.antt =====
-- Slicing into batches loses, repeats and reorders nothing.
use dbkit_sql.Prelude.{
  ℕ, zero, suc, ◌≤◌, ◌<◌, ◌≡◌, refl, ap, ◌∙◌, List, [], ◌∷◌, ◌++◌, arith, nat_beq, if◌then◌else◌,
  length, take, drop, take-append-drop, length-take-le, length-drop, All, max,
}
use dbkit_sql.Bulk.{slices, iter_batches}

module _ {A : Type 0} where
  abbrev pub concat : List (List A) → List A
  concat [] = []
  concat (b ∷ bs) = b ++ concat bs

  -- A batch has a row and no more than `size`.
  abbrev pub Fits : ℕ → List A → Type 0
  Fits size b = (1 ≤ length b) × (length b ≤ size)

  concat-slices :
      (fuel size : ℕ) (rows : List A)
      → 0 < size
      → length rows ≤ fuel
      → concat (slices fuel size rows) ≡ rows
  unfolding slices
  concat-slices zero size [] p h = refl
  concat-slices zero size (r ∷ rs) p h = elim h [ ]
  concat-slices (suc fuel) size [] p h = refl
  concat-slices (suc fuel) size (r ∷ rs) p h =
      ap (◌++◌ (take size (r ∷ rs)))
        (concat-slices fuel size (drop size (r ∷ rs)) p (omega (arith, length-drop size (r ∷ rs))))
      ∙ take-append-drop size (r ∷ rs)

  slices-Fits : (fuel size : ℕ) (rows : List A) → 0 < size → All (Fits size) (slices fuel size rows)
  unfolding slices
  slices-Fits zero size rows p = tt
  slices-Fits (suc fuel) size [] p = tt
  slices-Fits (suc fuel) zero (r ∷ rs) p = elim p [ ]
  slices-Fits (suc fuel) (suc size) (r ∷ rs) p = (
    (omega arith, length-take-le (suc size) (r ∷ rs)),
    slices-Fits fuel (suc size) (drop size rs) p,
  )

  -- The batches, one after another, are the rows in their order, and each holds between 1 and
  -- `batch_size` rows, where a size of 0 counts as 1.
  pub iter_batches-concat :
      (rows : List A) (batch_size : ℕ)
      → (concat (iter_batches rows batch_size) ≡ rows)
        × All (Fits (max batch_size 1)) (iter_batches rows batch_size)
  unfolding iter_batches
  iter_batches-concat rows zero = (
    concat-slices (length rows) 1 rows (omega arith) (omega arith),
    slices-Fits (length rows) 1 rows (omega arith),
  )
  iter_batches-concat rows (suc n) =
      let size : (if nat_beq (suc n) 0 then 1 else suc n) ≡ suc n = ground arith in
      let most : max (suc n) 1 ≡ suc n = omega arith in
      rw (size, most)
        (
          concat-slices (length rows) (suc n) rows (omega arith) (omega arith),
          slices-Fits (length rows) (suc n) rows (omega arith),
        )
