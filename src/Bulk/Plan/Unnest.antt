-- ===== src/Bulk/Plan/Unnest.antt =====
-- The arrays of the strategy `unnest` stand for the rows of a batch.
use mathlib.Core.Option
use dbkit_sql.Prelude.{
  ℕ, suc, ◌≡◌, refl, sym, ap, ◌∙◌, subst, String, Option, none, some, false, List, [], ◌∷◌, ◌++◌,
  map, length, string_eq, All, arith,
}
use dbkit_sql.Prelude.Dict.{Dict, get, has, Distinct}
use dbkit_sql.Bulk.{Value, Row}
use dbkit_sql.Bulk.Plan.Server.{
  heads, tails, side_by_side, scalars_of-scalar, flat_array, flattened, unnest, IsScalar,
}
use dbkit_sql.Bulk.Plan.{with_head, column_values, keyed, columnar_params, arrays, for_batch}

abbrev pub keys : Row → List String
keys r = map (λ (p : String × Value). p.0) r

-- The entries of `part`, looked up in a row that has them all, put before the arrays of other rows.
abbrev Finds : Row → Row → Type 0
Finds row part = All (λ (p : String × Value). get row p.0 ≡ some p.1) part

abbrev onto : Row → Dict String (List Value) → Dict String (List Value)
onto [] d = []
onto ((c, v) ∷ r) [] = []
onto ((c, v) ∷ r) ((c', vs) ∷ d) = (c, v ∷ vs) ∷ onto r d

columnar-cons :
    (row part : Row) (rs : List Row) (d : Dict String (List Value))
    → Finds row part
    → columnar_params rs (keys part) ≡ some d
    → columnar_params (row ∷ rs) (keys part) ≡ some (onto part d)
unfolding columnar_params column_values
columnar-cons row [] rs d f h = refl
columnar-cons row ((c, v) ∷ part) rs d f h =
    by_parts (column_values c rs) (columnar_params rs (keys part)) refl refl h
      (λ d'. columnar-cons row part rs d' f.1)
  where
    by_parts :
        (vs : Option (List Value)) (o : Option (Dict String (List Value)))
        → column_values c rs ≡ vs
        → columnar_params rs (keys part) ≡ o
        → with_head (keyed c vs) o ≡ some d
        → ((d' : Dict String (List Value))
            → columnar_params rs (keys part) ≡ some d'
            → columnar_params (row ∷ rs) (keys part) ≡ some (onto part d'))
        → with_head
            (keyed c (with_head (get row c) (column_values c rs)))
            (columnar_params (row ∷ rs) (keys part))
          ≡ some (onto ((c, v) ∷ part) d)
    by_parts none o e e' g ih = cc
    by_parts (some vs) none e e' g ih = cc
    by_parts (some vs) (some d') e e' g ih =
        let here : some ((c, vs) ∷ d') ≡ some d = g in
        rw (f.0, e, ih d' e') (ap (Option.map (onto ((c, v) ∷ part))) here)

some_inj {ℓ} : {A : Type ℓ} {a b : A} → some a ≡ some b → a ≡ b
some_inj e = cc

abbrev Keyed : List String → Dict String (List Value) → Type 0
Keyed cs d = map (λ (p : String × List Value). p.0) d ≡ cs

heads-onto : (r : Row) (d : Dict String (List Value)) → Keyed (keys r) d → heads (onto r d) ≡ r
heads-onto [] d h = refl
heads-onto ((c, v) ∷ r) [] h = cc
heads-onto ((c, v) ∷ r) ((c', vs) ∷ d) h = ap (◌∷◌ (c, v)) (heads-onto r d (ground arith))

tails-onto : (r : Row) (d : Dict String (List Value)) → Keyed (keys r) d → tails (onto r d) ≡ d
tails-onto [] [] h = refl
tails-onto [] (p ∷ d) h = cc
tails-onto ((c, v) ∷ r) [] h = cc
tails-onto ((c, v) ∷ r) ((c', vs) ∷ d) h =
    let same : c' ≡ c = ground arith in
    ap (λ k. (k, vs) ∷ tails (onto r d)) (sym same)
    ∙ ap (◌∷◌ (c', vs)) (tails-onto r d (ground arith))

-- Rows that have just the columns of the plan, none of them twice, and no lists in them.
abbrev pub Shares : List String → Row → Type 0
Shares columns r = (keys r ≡ columns) × Distinct r × All (λ p. IsScalar p.1) r

Keyed-columnar :
    (rs : List Row) (cs : List String) (d : Dict String (List Value))
    → columnar_params rs cs ≡ some d
    → Keyed cs d
unfolding columnar_params
Keyed-columnar rs [] d h = subst (Keyed []) (some_inj h) refl
Keyed-columnar rs (c ∷ cs) d h =
    by_parts (column_values c rs) (columnar_params rs cs) refl h (Keyed-columnar rs cs)
  where
    by_parts :
        (vs : Option (List Value)) (o : Option (Dict String (List Value)))
        → columnar_params rs cs ≡ o
        → with_head (keyed c vs) o ≡ some d
        → ((d' : Dict String (List Value)) → columnar_params rs cs ≡ some d' → Keyed cs d')
        → Keyed (c ∷ cs) d
    by_parts none o e g ih = cc
    by_parts (some vs) none e g ih = cc
    by_parts (some vs) (some d') e g ih = subst (Keyed (c ∷ cs)) (some_inj g) (ap (◌∷◌ c) (ih d' e))

Finds-weaken :
    (j : String) (v : Value) (row part : Row)
    → has row j ≡ false
    → Finds row part
    → Finds ((j, v) ∷ row) part
unfolding get
Finds-weaken j v row [] n f = tt
Finds-weaken j v row ((k, w) ∷ part) n f =
    (ground (arith, string_eq.eqb_iff j k, f.0), Finds-weaken j v row part n f.1)

Finds-self : (row : Row) → Distinct row → Finds row row
unfolding get
Finds-self [] h = tt
Finds-self ((j, v) ∷ row) h =
    (ground (arith, string_eq.eqb_iff j j), Finds-weaken j v row row h.0 (Finds-self row h.1))

columnar-nil :
    (cs : List String) → (d : Dict String (List Value)) × (columnar_params [] cs ≡ some d)
unfolding columnar_params column_values
columnar-nil [] = ([], refl)
columnar-nil (c ∷ cs) =
    let (d, e) = columnar-nil cs in ((c, []) ∷ d, ap (with_head (some (c, []))) e)

-- Arrays of scalars stay as they are when scalars are put in front.
flattened-onto :
    (r : Row) (d : Dict String (List Value))
    → All (λ p. IsScalar p.1) r
    → flattened d ≡ d
    → flattened (onto r d) ≡ onto r d
flattened-onto [] d s h = refl
flattened-onto ((c, v) ∷ r) [] s h = refl
flattened-onto ((c, v) ∷ r) ((c', vs) ∷ d) s h =
    let array : flat_array vs ≡ vs = ground arith in
    let rest = flattened-onto r d s.1 (ground arith) in
    ap (λ a. (c, a ++ flat_array vs) ∷ flattened (onto r d)) (scalars_of-scalar v s.0)
    ∙ ap (λ a. (c, v ∷ a) ∷ flattened (onto r d)) array
    ∙ ap (◌∷◌ (c, v ∷ vs)) rest

-- All arrays are of this length.
abbrev pub AllOfLength : ℕ → Dict String (List Value) → Type 0
AllOfLength n d = All (λ p. length p.1 ≡ n) d

AllOfLength-onto :
    (n : ℕ) (r : Row) (d : Dict String (List Value))
    → AllOfLength n d
    → AllOfLength (suc n) (onto r d)
AllOfLength-onto n [] d h = tt
AllOfLength-onto n ((c, v) ∷ r) [] h = tt
AllOfLength-onto n ((c, v) ∷ r) ((c', vs) ∷ d) h = (ap suc h.0, AllOfLength-onto n r d h.1)

AllOfLength-nil :
    (cs : List String) (d : Dict String (List Value))
    → columnar_params [] cs ≡ some d
    → AllOfLength 0 d × (flattened d ≡ d)
unfolding columnar_params column_values
AllOfLength-nil [] d h = subst (λ e. AllOfLength 0 e × (flattened e ≡ e)) (some_inj h) (tt, refl)
AllOfLength-nil (c ∷ cs) d h =
    let (d', e) = columnar-nil cs in
    let (l, f) = AllOfLength-nil cs d' e in
    let whole : some ((c, []) ∷ d') ≡ some d = sym (ap (with_head (some (c, []))) e) ∙ h in
    subst (λ e. AllOfLength 0 e × (flattened e ≡ e)) (some_inj whole)
      ((refl, l), ap (◌∷◌ (c, [])) f)

transposed :
    (columns : List String) (batch : List Row)
    → All (Shares columns) batch
    → (d : Dict String (List Value)) × (columnar_params batch columns ≡ some d)
      × (side_by_side (length batch) d ≡ batch)
      × AllOfLength (length batch) d
      × (flattened d ≡ d)
transposed columns [] h =
    let (d, e) = columnar-nil columns in
    let (l, f) = AllOfLength-nil columns d e in (d, e, refl, l, f)
transposed columns (r ∷ rs) h =
    let (d, e, u, l, f) = transposed columns rs h.1 in
    let e' = subst (λ cs. columnar_params rs cs ≡ some d) (sym h.0.0) e in
    let k = Keyed-columnar rs (keys r) d e' in
    (
      onto r d,
      subst (λ cs. columnar_params (r ∷ rs) cs ≡ some (onto r d)) h.0.0
          (columnar-cons r r rs d (Finds-self r h.0.1) e'),
      ap (λ x. x ∷ side_by_side (length rs) (tails (onto r d))) (heads-onto r d k)
          ∙ ap (λ t. r ∷ side_by_side (length rs) t) (tails-onto r d k)
          ∙ ap (◌∷◌ r) u,
      AllOfLength-onto (length rs) r d l,
      flattened-onto r d h.0.2 f,
    )

-- The arrays that the strategy `unnest` sends stand for the rows that were given: where all rows of a batch
-- have the columns of the plan, in their order and none twice, and no value is a list, the batch has
-- parameters, all arrays are as long as the batch, also flattened, and so many rows of what `unnest` makes
-- of them are the rows of the batch.
pub unnest-columnar :
    (columns : List String) (batch : List Row)
    → All (Shares columns) batch
    → (d : Dict String (List Value)) × (for_batch (some columns) batch ≡ some (arrays d))
      × AllOfLength (length batch) (flattened d)
      × (unnest (length batch) d ≡ batch)
unfolding for_batch
unnest-columnar columns batch h =
    let (d, e, u, l, f) = transposed columns batch h in
    (
      d,
      ap (λ o. elim o [ none ↦ none | some a ↦ some (arrays a) ]) e,
      subst (AllOfLength (length batch)) (sym f) l,
      ap (side_by_side (length batch)) f ∙ u,
    )
