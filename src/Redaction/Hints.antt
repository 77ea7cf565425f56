-- ===== src/Redaction/Hints.antt =====
-- What `is_sensitive_key` (_core/errors/redaction.py) looks for, as parts of texts.
use Prim.Native.String.{◌++◌}
use text.Mathlib.TextLemmas.{nil-append, cons-append, head-eq_of_cons-eq}
use dbkit_sql.Prelude.{
  ◌≡◌, refl, sym, ◌∙◌, ap, subst, String, true, List, [], ◌∷◌, ◌==◌, string_eq, ◌↔◌, inl, inr,
  arith, Bool-cases,
}
use dbkit_sql.Redaction.{
  starts_with, contains, sensitive_key_hints, any_hint, is_named, is_sensitive_key,
}

-- A text that has the fragment in front has it, and a text that has it behind something has it.
starts_with-append : (p s : String) → starts_with p (p ++ s) ≡ true
starts_with-append String.[] s = refl
starts_with-append (String.◌∷◌ c p) s =
    let same = string_eq.eqb_iff (String.◌∷◌ c String.[]) (String.◌∷◌ c String.[]) in
    let rest = starts_with-append p s in
    subst (λ t. starts_with (String.◌∷◌ c p) t ≡ true) (sym (cons-append c p s))
      (ground (arith, same, rest))

contains-prefix : (p s : String) → starts_with p s ≡ true → contains p s ≡ true
contains-prefix p String.[] h = h
contains-prefix p (String.◌∷◌ d s) h = ground (arith, h)

contains-append : (before p after : String) → contains p (before ++ (p ++ after)) ≡ true
contains-append String.[] p after =
    subst (λ t. contains p t ≡ true) (sym (nil-append (p ++ after)))
      (contains-prefix p (p ++ after) (starts_with-append p after))
contains-append (String.◌∷◌ c s) p after =
    let rest = contains-append s p after in
    subst (λ t. contains p t ≡ true) (sym (cons-append c s (p ++ after))) (ground (arith, rest))

any_hint-is_named :
    (hs : List String) (h s : String)
    → is_named hs h ≡ true
    → contains h s ≡ true
    → any_hint hs s ≡ true
any_hint-is_named [] h s n c = n
any_hint-is_named (k ∷ hs) h s n c = elim (Bool-cases (k == h)) [
  | inl e ↦
      let here = subst (λ t. contains t s ≡ true) (sym ((string_eq.eqb_iff k h).0 e)) c in
      ground (arith, here)
  | inr e ↦ let rest = any_hint-is_named hs h s (ground (arith, n, e)) c in ground (arith, rest)
]

-- The text is the fragment with something before and after it.
abbrev pub IsWithin : String → String → Type 0
IsWithin p s = (before : String) × ((after : String) × (s ≡ before ++ (p ++ after)))

starts_with-split : (p s : String) → starts_with p s ≡ true → (after : String) × (s ≡ p ++ after)
starts_with-split String.[] s h = (s, sym (nil-append s))
starts_with-split (String.◌∷◌ c p) String.[] h = ground (arith, h)
starts_with-split (String.◌∷◌ c p) (String.◌∷◌ d s) h =
    let same =
      (string_eq.eqb_iff (String.◌∷◌ c String.[]) (String.◌∷◌ d String.[])).0 (ground (arith, h)) in
    let rest = starts_with-split p s (ground (arith, h)) in
    (
      rest.0,
      ap (λ t. String.◌∷◌ d t) rest.1
          ∙ (ap (λ e. String.◌∷◌ e (p ++ rest.0)) (sym (head-eq_of_cons-eq same))
              ∙ sym (cons-append c p rest.0)),
    )

starts_with-IsWithin : (p s : String) → starts_with p s ≡ true → IsWithin p s
starts_with-IsWithin p s h =
    let split = starts_with-split p s h in
    ("", (split.0, split.1 ∙ sym (nil-append (p ++ split.0))))

contains-split : (p s : String) → contains p s ≡ true → IsWithin p s
contains-split p String.[] h = starts_with-IsWithin p String.[] h
contains-split p (String.◌∷◌ d s) h = elim (Bool-cases (starts_with p (String.◌∷◌ d s))) [
  | inl e ↦ starts_with-IsWithin p (String.◌∷◌ d s) e
  | inr e ↦
      let rest = contains-split p s (ground (arith, h, e)) in
      (
        String.◌∷◌ d rest.0,
        (rest.1.0, ap (λ t. String.◌∷◌ d t) rest.1.1 ∙ sym (cons-append d rest.0 (p ++ rest.1.0))),
      )
]

any_hint-split :
    (hs : List String) (s : String)
    → any_hint hs s ≡ true
    → (h : String) × ((is_named hs h ≡ true) × (contains h s ≡ true))
any_hint-split [] s h = ground (arith, h)
any_hint-split (k ∷ hs) s h = elim (Bool-cases (contains k s)) [
  | inl e ↦ (k, (ground (arith, (string_eq.eqb_iff k k).1 refl), e))
  | inr e ↦
      let rest = any_hint-split hs s (ground (arith, h, e)) in
      (rest.0, (ground (arith, rest.1.0), rest.1.1))
]

-- One of the hints is part of the text.
abbrev pub IsHinted : String → Type 0
IsHinted s = (h : String) × ((is_named sensitive_key_hints h ≡ true) × IsWithin h s)

pub is_sensitive_key_iff :
    (lower : String → String) (key : String)
    → (is_sensitive_key lower key ≡ true) ↔ IsHinted (lower key)
unfolding is_sensitive_key
is_sensitive_key_iff lower key = (
  λ h.
      let found = any_hint-split sensitive_key_hints (lower key) h in
      (found.0, (found.1.0, contains-split found.0 (lower key) found.1.1)),
  λ h.
      any_hint-is_named sensitive_key_hints h.0 (lower key) h.1.0 (
        subst (λ t. contains h.0 t ≡ true) (sym h.1.1.1.1) (contains-append h.1.1.0 h.0 h.1.1.1.0)),
)
