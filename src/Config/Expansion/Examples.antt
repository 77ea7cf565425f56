-- ===== src/Config/Expansion/Examples.antt =====
-- Texts and values of a configuration whose references are expanded (`expand_env`, `_expand_tree`).
use dbkit_sql.Config.Expansion.References.{Piece, character, reference, expand_env-spell}
use dbkit_sql.Prelude.{String, List, none, some, ◌≡◌, refl, [], ◌∷◌, ok, err}
use dbkit_sql.Prelude.Dict.{Dict, get}
use dbkit_sql.Config.{config_error}
use dbkit_sql.Config.Tree.{Node}
use dbkit_sql.Config.Expansion.{
  is_name_start, is_name_part, match_end, match_name, match_reference, expand_from, expand_env,
  expand_tree,
}

-- A reference that is set, one with a default, and what is no reference.
two_references : expand_env (("A", "x") ∷ []) "p${A}q${B:-d:e}${$" ≡ ok "pxqd:e${$"
unfolding expand_env expand_from match_reference match_name match_end is_name_start is_name_part get
two_references = refl

-- What is put in is not expanded again.
once : expand_env (("A", "${B}") ∷ ("B", "x") ∷ []) "${A}" ≡ ok "${B}"
unfolding expand_env expand_from match_reference match_name match_end is_name_start is_name_part get
once = refl

-- A flag that is given by a reference becomes a text.
flag_reference : expand_tree [] (Node.text "${EVICT:-false}") ≡ ok (Node.text "false")
unfolding expand_tree expand_env expand_from match_reference match_name match_end is_name_start
    is_name_part get
flag_reference = refl

unset :
    expand_env [] "${A}" ≡ err (config_error "environment variable referenced in config is not set")
unfolding expand_env expand_from match_reference match_name match_end is_name_start is_name_part get
unset = refl

abbrev url_pieces : List Piece
url_pieces =
    character "p"
    ∷ reference "A" "_1" none
    ∷ character "@"
    ∷ reference "B" "" (some "d:${")
    ∷ character "}"
    ∷ []

abbrev url_environ : Dict String String
url_environ = ("A_1", "${B}") ∷ []

expand_env-spell_example : expand_env url_environ "p${A_1}@${B:-d:${}}" ≡ ok "p${B}@d:${}"
unfolding is_name_start is_name_part get
expand_env-spell_example =
    expand_env-spell url_environ url_pieces
      (refl, ((refl, refl, record {}), (refl, ((refl, refl, refl), (refl, record {})))))
