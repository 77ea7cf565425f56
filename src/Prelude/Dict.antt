-- ===== src/Prelude/Dict.antt =====
-- Python's `dict` (and `OrderedDict`) as an association list in insertion order.
use Prim.Native.Nat.{suc}
use mathlib.Core.Path.{◌≡◌, refl, subst₂}
use mathlib.Core.Logic.{inl, inr}
use mathlib.Core.Bool.{Bool, false}
use mathlib.Core.List.{List, [], ◌∷◌}
use mathlib.Core.Option.{Option, none, some}
use native.Mathlib.Omega.{arith}
use dbkit_sql.Prelude.Tests.{HasEquality, ◌==◌, if◌then◌else◌, is_some, Bool-cases}
use dbkit_sql.Prelude.Lists.{length, All}

abbrev pub Dict {ℓ κ} : Type ℓ → Type κ → Type (ℓ ⊔ κ)
Dict K V = List (K × V)

module _ {ℓ κ} {K : Type ℓ} {V : Type κ} ⦃e : HasEquality K⦄ where
  -- d.get(k)
  unfoldable pub get : Dict K V → K → Option V
  get [] k = none
  get ((j, v) ∷ d) k = if j == k then some v else get d k

  -- d[k] = v: in place for a key that is there, else at the end
  unfoldable pub set : Dict K V → K → V → Dict K V
  set [] k v = (k, v) ∷ []
  set ((j, w) ∷ d) k v = if j == k then (j, v) ∷ d else (j, w) ∷ set d k v

  -- d.pop(k, None), del d[k]
  unfoldable pub remove : Dict K V → K → Dict K V
  remove [] k = []
  remove ((j, w) ∷ d) k = if j == k then d else (j, w) ∷ remove d k

  -- k in d
  abbrev pub has : Dict K V → K → Bool
  has d k = is_some (get d k)

  -- No key stands twice.
  abbrev pub Distinct : Dict K V → Type 0
  Distinct [] = Unit
  Distinct ((j, v) ∷ d) = (has d j ≡ false) × Distinct d

module _ {ℓ κ} {K : Type ℓ} {V : Type κ} ⦃e : HasEquality K⦄ where
  pub get-set :
      (d : Dict K V) (k j : K) (v : V) → get (set d k v) j ≡ (if k == j then some v else get d j)
  unfolding get set
  get-set [] k j v = refl
  get-set ((i, w) ∷ d) k j v =
      ground (arith, e.eqb_iff k j, e.eqb_iff i k, e.eqb_iff i j, get-set d k j v)

  pub get-remove_self : (d : Dict K V) (k : K) → Distinct d → get (remove d k) k ≡ none
  unfolding get remove
  get-remove_self [] k h = refl
  get-remove_self ((i, w) ∷ d) k h = ground (arith, e.eqb_iff i k, get-remove_self d k h.1)

  pub get-remove_ne : (d : Dict K V) (k j : K) → (k == j) ≡ false → get (remove d k) j ≡ get d j
  unfolding get remove
  get-remove_ne [] k j n = refl
  get-remove_ne ((i, w) ∷ d) k j n =
      ground (arith, e.eqb_iff i k, e.eqb_iff i j, e.eqb_iff k j, get-remove_ne d k j n)

  pub get-remove :
      (d : Dict K V) (k j : K)
      → Distinct d
      → get (remove d k) j ≡ (if k == j then none else get d j)
  get-remove d k j h = ground (arith, e.eqb_iff k j, get-remove_self d k h, get-remove_ne d k j)

  pub set-Distinct : (d : Dict K V) (k : K) (v : V) → Distinct d → Distinct (set d k v)
  unfolding get set
  set-Distinct [] k v h = (refl, tt)
  set-Distinct ((i, w) ∷ d) k v h =
      ground (arith, e.eqb_iff i k, e.eqb_iff k i, set-Distinct d k v h.1, get-set d k i v)

  pub remove-Distinct : (d : Dict K V) (k : K) → Distinct d → Distinct (remove d k)
  unfolding get remove
  remove-Distinct [] k h = tt
  remove-Distinct ((i, w) ∷ d) k h =
      ground (arith, e.eqb_iff i k, e.eqb_iff k i, remove-Distinct d k h.1, get-remove_ne d k i)

  pub length-set :
      (d : Dict K V) (k : K) (v : V)
      → length (set d k v) ≡ (if has d k then length d else suc (length d))
  unfolding get set
  length-set [] k v = refl
  length-set ((i, w) ∷ d) k v = ground (arith, length-set d k v)

  pub length-remove :
      (d : Dict K V) (k : K)
      → (if has d k then suc (length (remove d k)) else length (remove d k)) ≡ length d
  unfolding get remove
  length-remove [] k = refl
  length-remove ((i, w) ∷ d) k = ground (arith, length-remove d k)

  pub set-All {ι} :
      (P : K × V → Type ι) (d : Dict K V) (k : K) (v : V) → All P d → P (k, v) → All P (set d k v)
  unfolding set
  set-All P [] k v h p = (p, tt)
  set-All P ((j, w) ∷ d) k v h p = elim (Bool-cases (j == k)) [
    | inl same ↦ rw same (let i : j ≡ k = (e.eqb_iff j k).0 same in rw i (p, h.1))
    | inr other ↦ rw other (h.0, set-All P d k v h.1 p)
  ]

  pub remove-All {ι} : (P : K × V → Type ι) (d : Dict K V) (k : K) → All P d → All P (remove d k)
  unfolding remove
  remove-All P [] k h = tt
  remove-All P ((j, w) ∷ d) k h = elim (Bool-cases (j == k)) [
    | inl same ↦ rw same h.1
    | inr other ↦ rw other (h.0, remove-All P d k h.1)
  ]

  -- What holds of every entry holds of the entry that a lookup finds.
  pub get-All {ι} :
      (P : K → V → Type ι) (d : Dict K V) (k : K) (v : V)
      → All (λ p. P p.0 p.1) d
      → get d k ≡ some v
      → P k v
  unfolding get
  get-All P [] k v h g = cc
  get-All P ((j, w) ∷ d) k v h g = elim (Bool-cases (j == k)) [
    | inl same ↦ let found : w ≡ v = ground arith in subst₂ P ((e.eqb_iff j k).0 same) found h.0
    | inr other ↦ get-All P d k v h.1 (rw other at g)
  ]
