-- ===== src/Redaction.antt =====
-- Redaction of parameters (_core/errors/redaction.py): `is_sensitive_key` and `redact_params`. `lower` stands
-- for `str.lower`, whose table of letters is Python's own. A value is what the caller gave, or the mark `***`.
pub mod Hints
pub mod Params
mod Examples
use Prim.Native.String.{◌++◌}
use text.Mathlib.TextLemmas.{nil-append, cons-append, head-eq_of_cons-eq}
use dbkit_sql.Prelude.{
  ◌≡◌, refl, sym, ◌∙◌, ap, subst, String, Option, none, some, Bool, true, false, List, [], ◌∷◌,
  ◌==◌, string_eq, if◌then◌else◌, ◌||◌, ◌⊎◌, ◌↔◌, inl, inr, arith, Bool-cases, Option-cases,
}
use dbkit_sql.Prelude.Dict.{Dict, get, set, has, Distinct, get-set}

-- Whether the text starts with the fragment.
abbrev pub starts_with : String → String → Bool
starts_with String.[] s = true
starts_with (String.◌∷◌ c p) String.[] = false
starts_with (String.◌∷◌ c p) (String.◌∷◌ d s) =
    let rest = starts_with p s in
    if String.◌∷◌ c String.[] == String.◌∷◌ d String.[] then rest else false

-- fragment in text
abbrev pub contains : String → String → Bool
contains p String.[] = starts_with p String.[]
contains p (String.◌∷◌ d s) = starts_with p (String.◌∷◌ d s) || contains p s

abbrev pub sensitive_key_hints : List String
sensitive_key_hints =
    "password" ∷ "passwd" ∷ "secret" ∷ "token" ∷ "api_key" ∷ "apikey" ∷ "authorization" ∷ "auth"
    ∷ "credential" ∷ "private_key" ∷ "access_key" ∷ "ssn" ∷ "national_id" ∷ "credit_card"
    ∷ "card_number" ∷ "cvv" ∷ "iban" ∷ "dob" ∷ "date_of_birth" ∷ "pin" ∷ []

abbrev pub any_hint : List String → String → Bool
any_hint [] s = false
any_hint (h ∷ hs) s = contains h s || any_hint hs s

-- key in sensitive
abbrev pub is_named : List String → String → Bool
is_named [] key = false
is_named (k ∷ ks) key = if k == key then true else is_named ks key

pub data Shown {ℓ} (V : Type ℓ) : Type ℓ where
  redacted : Shown V
  shown : V → Shown V

module _ (lower : String → String) where
  unfoldable pub is_sensitive_key : String → Bool
  is_sensitive_key key = any_hint sensitive_key_hints (lower key)

-- sensitive or set()
abbrev pub named : Option (List String) → List String
named none = []
named (some ks) = ks

module _ {ℓ} {V : Type ℓ} (lower : String → String) where
  abbrev pub show_value : List String → String → V → Shown V
  show_value sensitive key v =
      if is_named sensitive key || is_sensitive_key lower key then redacted else shown v

  -- The loop over `params.items()`, which writes into `out`.
  unfoldable pub redact_into :
      List String → Dict String (Shown V) → Dict String V → Dict String (Shown V)
  redact_into sensitive out [] = out
  redact_into sensitive out ((key, v) ∷ params) =
      redact_into sensitive (set out key (show_value sensitive key v)) params

  unfoldable pub redact_params :
      Option (Dict String V) → Option (List String) → Dict String (Shown V)
  unfolding redact_into
  redact_params none sensitive = []
  redact_params (some []) sensitive = []
  redact_params (some (p ∷ params)) sensitive = redact_into (named sensitive) [] (p ∷ params)
