-- ===== src/Config/Expansion.antt =====
-- `expand_env` and `_expand_tree` (_core/config.py): the references `${VAR}` and `${VAR:-default}` of a
-- configuration are replaced before it is built. `_ENV_RE.sub` tries a match at each position from the left,
-- and goes on behind a match. The pattern never has two ways to match, so it is read here without backtracking.
pub mod References
mod Examples
use Prim.Native.String.{◌++◌}
use dbkit_sql.Prelude.{
  bind-ok, ◌≡◌, refl, sym, ◌∙◌, ap, ℕ, zero, suc, ◌+◌, String, Option, none, some, Bool, true,
  false, List, [], ◌∷◌, ◌==◌, string_eq, if◌then◌else◌, ◌||◌, is_some, arith, Result, ok, err,
  ◌>>=◌, not, ◌-◌,
}
use dbkit_sql.Prelude.Dict.{Dict, get}
use dbkit_sql.Errors.{DatabaseError}
use dbkit_sql.Redaction.{contains, starts_with}
use dbkit_sql.Config.{config_error}
use dbkit_sql.Config.Tree.{Node, Entries, Nodes, Loaded, refused, lookup}

-- [A-Za-z_]
unfoldable pub is_name_start : String → Bool
is_name_start c = contains c "ABCDEFGHIJKLMNOPQRSTUVWXYZabcdefghijklmnopqrstuvwxyz_"

-- [A-Za-z0-9_]
unfoldable pub is_name_part : String → Bool
is_name_part c = is_name_start c || contains c "0123456789"

-- [^}]
abbrev pub is_default_part : String → Bool
is_default_part c = not (c == "}")

-- The longest run of characters in front that pass the test, and what follows it.
abbrev pub split_while : (String → Bool) → String → String × String
split_while f String.[] = ("", "")
split_while f (String.◌∷◌ c s) =
    let rest = split_while f s in
    if f (String.◌∷◌ c String.[]) then (String.◌∷◌ c rest.0, rest.1) else ("", String.◌∷◌ c s)

abbrev pub size : String → ℕ
size String.[] = 0
size (String.◌∷◌ c s) = suc (size s)

-- What follows the prefix, if the text starts with it.
abbrev pub after_prefix : String → String → Option String
after_prefix String.[] s = some s
after_prefix (String.◌∷◌ c p) String.[] = none
after_prefix (String.◌∷◌ c p) (String.◌∷◌ d s) =
    let rest = after_prefix p s in
    if String.◌∷◌ c String.[] == String.◌∷◌ d String.[] then rest else none

pub record Reference : Type 0 where
  name : String
  default : Option String
  -- How many characters the match has.
  width : ℕ

abbrev pub closed : String → Option String → ℕ → String → Option Reference
closed name default width s = elim (after_prefix "}" s) [
  | none ↦ none
  | some t ↦ some (record { name = name; default = default; width = width + 1 })
]

-- After `${` and the name: the default, if there is one, and the brace.
unfoldable pub match_end : String → String → Option Reference
match_end name s = elim (after_prefix ":-" s) [
  | none ↦ closed name none (2 + size name) s
  | some t ↦
      let d = split_while is_default_part t in closed name (some d.0) (4 + size name + size d.0) d.1
]

unfoldable pub match_name : String → Option Reference
match_name String.[] = none
match_name (String.◌∷◌ c s) =
    if is_name_start (String.◌∷◌ c String.[])
    then (let n = split_while is_name_part s in match_end (String.◌∷◌ c n.0) n.1)
    else none

-- `_ENV_RE` at the start of the text.
unfoldable pub match_reference : String → Option Reference
match_reference s = elim (after_prefix "${" s) [ none ↦ none | some t ↦ match_name t ]

module _ (env : Dict String String) where
  -- `_sub`
  abbrev pub substitute : Reference → Result DatabaseError String
  substitute m = elim (get env m.name) [
    | some v ↦ ok v
    | none ↦ elim (m.default) [
      | some d ↦ ok d
      | none ↦ err (config_error "environment variable referenced in config is not set")
    ]
  ]

  -- The text from here on, of which the first characters belong to a match.
  unfoldable pub expand_from : ℕ → String → Result DatabaseError String
  expand_from covered String.[] = ok ""
  expand_from (suc covered) (String.◌∷◌ c s) = expand_from covered s
  expand_from zero (String.◌∷◌ c s) = elim (match_reference (String.◌∷◌ c s)) [
    | none ↦ expand_from zero s >>= λ t. ok (String.◌∷◌ c t)
    | some m ↦ substitute m >>= λ v. expand_from (m.width - 1) s >>= λ t. ok (v ++ t)
  ]

  unfoldable pub expand_env : String → Result DatabaseError String
  unfolding expand_from
  expand_env value = expand_from zero value

  unfoldable mutual
    pub expand_tree : Node → Result DatabaseError Node
    expand_tree (Node.text s) = expand_env s >>= λ t. ok (Node.text t)
    expand_tree (Node.mapping es) = expand_entries es >>= λ fs. ok (Node.mapping fs)
    expand_tree (Node.sequence ns) = expand_nodes ns >>= λ ms. ok (Node.sequence ms)
    expand_tree Node.null = ok Node.null
    expand_tree (Node.truth b) = ok (Node.truth b)
    expand_tree (Node.number f) = ok (Node.number f)

    pub expand_entries : Entries → Result DatabaseError Entries
    expand_entries Entries.no_entries = ok Entries.no_entries
    expand_entries (Entries.entry k n rest) =
        expand_tree n >>= λ m. expand_entries rest >>= λ es. ok (Entries.entry k m es)

    pub expand_nodes : Nodes → Result DatabaseError Nodes
    expand_nodes Nodes.no_nodes = ok Nodes.no_nodes
    expand_nodes (Nodes.item n rest) =
        expand_tree n >>= λ m. expand_nodes rest >>= λ ms. ok (Nodes.item m ms)

  -- `_expand_tree(dict(data), environ) if expand else dict(data)` of `from_dict`
  unfoldable pub raw_entries : Bool → Entries → Loaded Entries
  unfolding expand_entries
  raw_entries expand es =
      if expand then elim (expand_entries es) [ ok fs ↦ ok fs | err e ↦ err (refused e) ] else ok es

-- A text without a dollar has no reference in it.
expand_from-plain :
    (env : Dict String String) (s : String) → contains "$" s ≡ false → expand_from env zero s ≡ ok s
unfolding expand_from match_reference
expand_from-plain env String.[] h = refl
expand_from-plain env (String.◌∷◌ c s) h =
    let rest = expand_from-plain env s (ground (arith, h)) in ground (arith, h, rest)

-- Expansion keeps the keys of a mapping: it changes values alone.
expand_entries-lookup :
    (env : Dict String String) (es fs : Entries) (key : String)
    → expand_entries env es ≡ ok fs
    → is_some (lookup fs key) ≡ is_some (lookup es key)
unfolding expand_entries lookup
expand_entries-lookup env Entries.no_entries fs key h = ground (arith, h)
expand_entries-lookup env (Entries.entry k n rest) fs key h =
    let (m, _, h1) = bind-ok (expand_tree env n) _ fs h in
    let (es, e, h2) = bind-ok (expand_entries env rest) _ fs h1 in
    let others = expand_entries-lookup env rest es key e in ground (arith, h2, others)
