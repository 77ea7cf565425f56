-- ===== src/Prelude/Sort.antt =====
-- `sorted(xs, key=...)` over integer keys: a stable insertion sort.
use dbkit_sql.Prelude.Tests.{if◌then◌else◌, Bool-cases}
use dbkit_sql.Prelude.Lists.{All}
use dbkit_sql.Prelude.Int.{ℤ, leb_ℤ, ◌≤ℤ◌}
use mathlib.Core.Logic.{◌⊎◌, inl, inr}
use mathlib.Core.List.{List, [], ◌∷◌}
use native.Mathlib.Omega.{arith}

-- Some member of the list satisfies `P`.
abbrev pub Some : {A : Type 0} → (A → Type 0) → List A → Type 0
Some P [] = ⊥
Some P (x ∷ xs) = P x ⊎ Some P xs

later : {X Y Z W : Type 0} → (Z → X ⊎ W) → Y ⊎ Z → X ⊎ (Y ⊎ W)
later f (inl y) = inr (inl y)
later f (inr z) = elim (f z) [ inl x ↦ inl x | inr w ↦ inr (inr w) ]

module _ {A : Type 0} (key : A → ℤ) where
  unfoldable pub insert_by : A → List A → List A
  insert_by x [] = x ∷ []
  insert_by x (y ∷ ys) = if leb_ℤ (key x) (key y) then x ∷ y ∷ ys else y ∷ insert_by x ys

  unfoldable pub sort_by : List A → List A
  unfolding insert_by
  sort_by [] = []
  sort_by (x ∷ xs) = insert_by x (sort_by xs)

  abbrev pub IsSorted : List A → Type 0
  IsSorted [] = Unit
  IsSorted (x ∷ xs) = All (λ y. key x ≤ℤ key y) xs × IsSorted xs

  insert_by-All : (P : A → Type 0) (x : A) (ys : List A) → P x → All P ys → All P (insert_by x ys)
  unfolding insert_by
  insert_by-All P x [] p h = (p, tt)
  insert_by-All P x (y ∷ ys) p h = elim (Bool-cases (leb_ℤ (key x) (key y))) [
    | inl e ↦ rw e (p, h)
    | inr e ↦ rw e (h.0, insert_by-All P x ys p h.1)
  ]

  pub sort_by-All : (P : A → Type 0) (xs : List A) → All P xs → All P (sort_by xs)
  unfolding sort_by
  sort_by-All P [] h = tt
  sort_by-All P (x ∷ xs) h = insert_by-All P x (sort_by xs) h.0 (sort_by-All P xs h.1)

  of_insert_by-All :
      (P : A → Type 0) (x : A) (ys : List A) → All P (insert_by x ys) → P x × All P ys
  unfolding insert_by
  of_insert_by-All P x [] h = (h.0, tt)
  of_insert_by-All P x (y ∷ ys) h = elim (Bool-cases (leb_ℤ (key x) (key y))) [
    | inl e ↦ let k : All P (x ∷ y ∷ ys) = rw e at h in (k.0, k.1)
    | inr e ↦
        let k : All P (y ∷ insert_by x ys) = rw e at h in
        let r = of_insert_by-All P x ys k.1 in (r.0, (k.0, r.1))
  ]

  pub of_sort_by-All : (P : A → Type 0) (xs : List A) → All P (sort_by xs) → All P xs
  unfolding sort_by
  of_sort_by-All P [] h = tt
  of_sort_by-All P (x ∷ xs) h =
      let r = of_insert_by-All P x (sort_by xs) h in (r.0, of_sort_by-All P xs r.1)

  of_insert_by-Some :
      (P : A → Type 0) (x : A) (ys : List A) → Some P (insert_by x ys) → P x ⊎ Some P ys
  unfolding insert_by
  of_insert_by-Some P x [] h = h
  of_insert_by-Some P x (y ∷ ys) h = elim (Bool-cases (leb_ℤ (key x) (key y))) [
    | inl e ↦ rw e at h
    | inr e ↦
        let k : Some P (y ∷ insert_by x ys) = rw e at h in later (λ r. of_insert_by-Some P x ys r) k
  ]

  pub of_sort_by-Some : (P : A → Type 0) (xs : List A) → Some P (sort_by xs) → Some P xs
  unfolding sort_by
  of_sort_by-Some P [] h = h
  of_sort_by-Some P (x ∷ xs) h = elim (of_insert_by-Some P x (sort_by xs) h) [
    | inl p ↦ inl p
    | inr q ↦ inr (of_sort_by-Some P xs q)
  ]

  All-lower :
      (x y : A) (ys : List A)
      → key x ≤ℤ key y
      → All (λ z. key y ≤ℤ key z) ys
      → All (λ z. key x ≤ℤ key z) ys
  All-lower x y [] l h = tt
  All-lower x y (z ∷ zs) l h = (omega arith, All-lower x y zs l h.1)

  insert_by-IsSorted : (x : A) (ys : List A) → IsSorted ys → IsSorted (insert_by x ys)
  unfolding insert_by
  insert_by-IsSorted x [] h = (tt, tt)
  insert_by-IsSorted x (y ∷ ys) h = elim (Bool-cases (leb_ℤ (key x) (key y))) [
    | inl e ↦ let l : key x ≤ℤ key y = ground arith in rw e ((l, All-lower x y ys l h.0), h)
    | inr e ↦
        let l : key y ≤ℤ key x = ground arith in
        rw e (insert_by-All (λ z. key y ≤ℤ key z) x ys l h.0, insert_by-IsSorted x ys h.1)
  ]

  pub sort_by-IsSorted : (xs : List A) → IsSorted (sort_by xs)
  unfolding sort_by
  sort_by-IsSorted [] = tt
  sort_by-IsSorted (x ∷ xs) = insert_by-IsSorted x (sort_by xs) (sort_by-IsSorted xs)
