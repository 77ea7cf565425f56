-- ===== src/Redaction/Params.antt =====
-- What `redact_params` (_core/errors/redaction.py) shows of a parameter.
use dbkit_sql.Prelude.{
  ◌≡◌, refl, String, Option, none, some, true, List, [], ◌∷◌, string_eq, ◌⊎◌, ◌↔◌, inl, inr, arith,
  Option-cases,
}
use dbkit_sql.Prelude.Dict.{Dict, get, set, has, Distinct, get-set}
use dbkit_sql.Redaction.{
  is_named, named, Shown, redacted, shown, show_value, redact_into, redact_params,
}
use dbkit_sql.Redaction.Hints.{IsHinted, is_sensitive_key_iff}

module _ {ℓ} {V : Type ℓ} (lower : String → String) where
  -- What stands for a parameter after the loop.
  abbrev written : List String → Option V → String → Option (Shown V) → Option (Shown V)
  written sensitive none key old = old
  written sensitive (some v) key old = some (show_value lower sensitive key v)

  get-redact_into :
      (sensitive : List String) (out : Dict String (Shown V)) (params : Dict String V)
      (key : String)
      → Distinct params
      → get (redact_into lower sensitive out params) key
        ≡ written sensitive (get params key) key (get out key)
  unfolding redact_into get
  get-redact_into sensitive out [] key h = refl
  get-redact_into sensitive out ((k, v) ∷ params) key h =
      let rest =
        get-redact_into sensitive (set out k (show_value lower sensitive k v)) params key h.1 in
      let here = get-set out k key (show_value lower sensitive k v) in
      ground (arith, string_eq.eqb_iff k key, rest, here, h.0)

  get-redact_params :
      (sensitive : Option (List String)) (params : Dict String V) (key : String)
      → Distinct params
      → get (redact_params lower (some params) sensitive) key
        ≡ written (named sensitive) (get params key) key none
  unfolding redact_params get
  get-redact_params sensitive [] key h = refl
  get-redact_params sensitive (p ∷ params) key h =
      get-redact_into (named sensitive) [] (p ∷ params) key h

  has-redact_params :
      (sensitive : Option (List String)) (params : Dict String V) (key : String)
      → Distinct params
      → has (redact_params lower (some params) sensitive) key ≡ has params key
  has-redact_params sensitive params key h =
      let at = get-redact_params sensitive params key h in
      elim (Option-cases (get params key)) [
        | inl e ↦ ground (arith, at, e)
        | inr e ↦ ground (arith, at, e.1)
      ]

  -- Where the parameters name no key twice, and one of them has this value: what `redact_params` returns has
  -- the mark in its place exactly when its key is among the sensitive ones that the caller named, or its key
  -- in small letters has one of the hints as a part. Otherwise it has the value itself there. It has the keys
  -- of the parameters and no others.
  pub redact_params_iff :
      (sensitive : Option (List String)) (params : Dict String V) (key : String) (v : V)
      → Distinct params
      → get params key ≡ some v
      → ((get (redact_params lower (some params) sensitive) key ≡ some redacted)
          ↔ ((is_named (named sensitive) key ≡ true) ⊎ IsHinted (lower key)))
        × (((get (redact_params lower (some params) sensitive) key ≡ some redacted)
              ⊎ (get (redact_params lower (some params) sensitive) key ≡ some (shown v)))
            × ((j : String) → has (redact_params lower (some params) sensitive) j ≡ has params j))
  redact_params_iff sensitive params key v d g =
      let at = get-redact_params sensitive params key d in
      let hints = is_sensitive_key_iff lower key in
      (
        ground (arith, at, g, hints),
        (ground (arith, at, g), λ j. has-redact_params sensitive params j d),
      )
