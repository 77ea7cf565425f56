-- ===== src/Config/Expansion/References.antt =====
-- What `expand_env` (_core/config.py) makes of a reference, wherever it stands.
use Prim.Native.Char.{Char}
use Prim.Native.String.{◌++◌}
use text.Mathlib.TextLemmas.{nil-append, cons-append}
use dbkit_sql.Prelude.{
  ◌≡◌, refl, sym, ◌∙◌, ap, subst, ℕ, zero, suc, ◌+◌, String, Option, none, some, Bool, true, false,
  ◌==◌, string_eq, ◌&&◌, arith, Result, ok, err, ◌>>=◌, ◌-◌, List, [], ◌∷◌, All,
}
use dbkit_sql.Prelude.Dict.{Dict, get}
use dbkit_sql.Errors.{DatabaseError}
use dbkit_sql.Config.{config_error}
use dbkit_sql.Config.Expansion.{
  is_name_start, is_name_part, split_while, Reference, closed, match_end, match_name,
  match_reference, is_default_part, substitute, expand_from, expand_env, size,
}

abbrev every : (String → Bool) → String → Bool
every f String.[] = true
every f (String.◌∷◌ c s) = f (String.◌∷◌ c String.[]) && every f s

split_while-every :
    (f : String → Bool) (n : String) (d : Char) (s : String)
    → every f n ≡ true
    → f (String.◌∷◌ d String.[]) ≡ false
    → split_while f (n ++ String.◌∷◌ d s) ≡ (n, String.◌∷◌ d s)
split_while-every f String.[] d s h e =
    subst (λ t. split_while f t ≡ ("", String.◌∷◌ d s)) (sym (nil-append (String.◌∷◌ d s)))
      (ground (arith, e))
split_while-every f (String.◌∷◌ c n) d s h e =
    let rest = split_while-every f n d s (ground (arith, h)) e in
    subst (λ t. split_while f t ≡ (String.◌∷◌ c n, String.◌∷◌ d s))
      (sym (cons-append c n (String.◌∷◌ d s))) (ground (arith, h, rest))

-- The length of the text and k.
abbrev past : String → ℕ → ℕ
past String.[] k = k
past (String.◌∷◌ c n) k = suc (past n k)

past_lem : (n : String) (k : ℕ) → past n k ≡ size n + k
past_lem String.[] k = omega arith
past_lem (String.◌∷◌ c n) k = let rest = past_lem n k in omega arith

module _ (env : Dict String String) where
  covered-append :
      (n : String) (k : ℕ) (s : String) → expand_from env (past n k) (n ++ s) ≡ expand_from env k s
  unfolding expand_from
  covered-append String.[] k s = ap (expand_from env k) (nil-append s)
  covered-append (String.◌∷◌ c n) k s =
      subst (λ t. expand_from env (suc (past n k)) t ≡ expand_from env k s)
        (sym (cons-append c n s)) (covered-append n k s)

  expand_from-match :
      (c : Char) (s : String) (m : Reference)
      → match_reference (String.◌∷◌ c s) ≡ some m
      → expand_from env zero (String.◌∷◌ c s)
        ≡ (substitute env m >>= λ v. expand_from env (m.width - 1) s >>= λ t. ok (v ++ t))
  unfolding expand_from
  expand_from-match c s m h = rw (expand_from, h)

-- What follows a name: the brace, or a default and the brace.
abbrev pub ending : Option String → String → String
ending none s = String.◌∷◌ "}" s
ending (some d) s = String.◌∷◌ ":" (String.◌∷◌ "-" (d ++ String.◌∷◌ "}" s))

abbrev ending_size : Option String → ℕ
ending_size none = 1
ending_size (some d) = suc (suc (past d 1))

abbrev pub IsDefault : Option String → Type 0
IsDefault none = Unit
IsDefault (some d) = every is_default_part d ≡ true

abbrev reference_to : String → Option String → Reference
reference_to name default = record {
  name = name;
  default = default;
  width = 2 + size name + ending_size default;
}

match_end-ending :
    (name : String) (default : Option String) (s : String)
    → IsDefault default
    → match_end name (ending default s) ≡ some (reference_to name default)
unfolding match_end
match_end-ending name none s h =
    ap (λ (w : ℕ). some (record { name = name; default = none; width = w })) (omega arith)
match_end-ending name (some d) s h =
    let split = split_while-every is_default_part d "}" s h refl in
    let length = past_lem d 1 in
    let ends =
      ap (λ (p : String × String). closed name (some p.0) (4 + size name + size p.0) p.1) split in
    ends ∙ ap (λ (w : ℕ). some (record { name = name; default = some d; width = w })) (omega arith)

split-ending :
    (n : String) (default : Option String) (s : String)
    → every is_name_part n ≡ true
    → split_while is_name_part (n ++ ending default s) ≡ (n, ending default s)
unfolding is_name_part is_name_start
split-ending n none s e = split_while-every is_name_part n "}" s e refl
split-ending n (some d) s e =
    split_while-every is_name_part n ":" (String.◌∷◌ "-" (d ++ String.◌∷◌ "}" s)) e refl

match_reference-name :
    (c : Char) (n : String) (default : Option String) (s : String)
    → is_name_start (String.◌∷◌ c String.[]) ≡ true
    → every is_name_part n ≡ true
    → IsDefault default
    → match_reference (String.◌∷◌ "$" (String.◌∷◌ "{" (String.◌∷◌ c (n ++ ending default s))))
      ≡ some (reference_to (String.◌∷◌ c n) default)
unfolding match_reference match_name
match_reference-name c n default s h e w =
    let split = split-ending n default s e in
    let ends =
      ap (λ (p : String × String). match_end (String.◌∷◌ c p.0) p.1) split
      ∙ match_end-ending (String.◌∷◌ c n) default s w in
    ground (arith, h, ends)

-- A text as characters that are no dollar and references to variables.
pub data Piece : Type 0 where
  character : Char → Piece
  reference : Char → String → Option String → Piece

abbrev pub spell : List Piece → String
spell [] = ""
spell (character c ∷ ps) = String.◌∷◌ c (spell ps)
spell (reference c n default ∷ ps) =
    String.◌∷◌ "$" (String.◌∷◌ "{" (String.◌∷◌ c (n ++ ending default (spell ps))))

abbrev pub IsProper : Piece → Type 0
IsProper (character c) = (String.◌∷◌ c String.[] == "$") ≡ false
IsProper (reference c n default) =
    (is_name_start (String.◌∷◌ c String.[]) ≡ true)
    × (every is_name_part n ≡ true)
    × IsDefault default

module _ (env : Dict String String) where
  -- What the environment has, else the default.
  abbrev pub value_of : String → Option String → Result DatabaseError String
  value_of name default = elim (get env name) [
    | some v ↦ ok v
    | none ↦ elim default [
      | some d ↦ ok d
      | none ↦ err (config_error "environment variable referenced in config is not set")
    ]
  ]

  -- The value of every reference in its place, or the error of the first that has none.
  abbrev pub meaning : List Piece → Result DatabaseError String
  meaning [] = ok ""
  meaning (character c ∷ ps) = meaning ps >>= λ t. ok (String.◌∷◌ c t)
  meaning (reference c n default ∷ ps) =
      value_of (String.◌∷◌ c n) default >>= λ v. meaning ps >>= λ t. ok (v ++ t)

  covered-ending :
      (default : Option String) (s : String)
      → expand_from env (ending_size default) (ending default s) ≡ expand_from env zero s
  unfolding expand_from
  covered-ending none s = refl
  covered-ending (some d) s = covered-append env d 1 (String.◌∷◌ "}" s)

  expand_from-reference :
      (c : Char) (n : String) (default : Option String) (s : String)
      → is_name_start (String.◌∷◌ c String.[]) ≡ true
      → every is_name_part n ≡ true
      → IsDefault default
      → expand_from env zero
          (String.◌∷◌ "$" (String.◌∷◌ "{" (String.◌∷◌ c (n ++ ending default s))))
        ≡ (value_of (String.◌∷◌ c n) default >>= λ v. expand_from env zero s >>= λ t. ok (v ++ t))
  unfolding expand_from
  expand_from-reference c n default s h e w =
      let m : Reference = reference_to (String.◌∷◌ c n) default in
      let behind : String = n ++ ending default s in
      let skip : m.width - 1 ≡ suc (suc (past n (ending_size default))) =
        let length = past_lem n (ending_size default) in omega arith in
      expand_from-match env "$" (String.◌∷◌ "{" (String.◌∷◌ c behind)) m
        (match_reference-name c n default s h e w)
      ∙ (ap
            (λ k. value_of (String.◌∷◌ c n) default >>= λ v.
              expand_from env k (String.◌∷◌ "{" (String.◌∷◌ c behind)) >>= λ t. ok (v ++ t))
            skip
          ∙ ap (λ r. value_of (String.◌∷◌ c n) default >>= λ v. r >>= λ t. ok (v ++ t))
              (covered-append env n (ending_size default) (ending default s)
                ∙ covered-ending default s))

  expand_from-character :
      (c : Char) (s : String)
      → (String.◌∷◌ c String.[] == "$") ≡ false
      → expand_from env zero (String.◌∷◌ c s)
        ≡ (expand_from env zero s >>= λ t. ok (String.◌∷◌ c t))
  unfolding expand_from match_reference
  expand_from-character c s h = ground (
    arith,
    h,
    string_eq.eqb_iff (String.◌∷◌ c String.[]) "$",
    string_eq.eqb_iff "$" (String.◌∷◌ c String.[]),
  )

  expand_from-spell :
      (ps : List Piece) → All IsProper ps → expand_from env zero (spell ps) ≡ meaning ps
  unfolding expand_from
  expand_from-spell [] h = refl
  expand_from-spell (character c ∷ ps) h =
      expand_from-character c (spell ps) h.0
      ∙ ap (λ r. r >>= λ t. ok (String.◌∷◌ c t)) (expand_from-spell ps h.1)
  expand_from-spell (reference c n default ∷ ps) h =
      expand_from-reference c n default (spell ps) h.0.0 h.0.1 h.0.2
      ∙ ap (λ r. value_of (String.◌∷◌ c n) default >>= λ v. r >>= λ t. ok (v ++ t))
          (expand_from-spell ps h.1)

-- Take a text of characters that are no dollar and of references, each with a name of letters, digits and
-- underscores that no digit begins, and with or without a default that has no closing brace. Then
-- `expand_env` gives the text with each reference replaced by what the environment has for the name, else by
-- its default, and neither is expanded again; or the error of the first reference that has neither.
pub expand_env-spell :
    (env : Dict String String) (ps : List Piece)
    → All IsProper ps
    → expand_env env (spell ps) ≡ meaning env ps
unfolding expand_env
expand_env-spell env ps h = expand_from-spell env ps h
