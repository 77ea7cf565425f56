-- ===== src/Redaction/Examples.antt =====
-- Parameters of a query that are redacted: `redact_params` (_core/errors/redaction.py).
use dbkit_sql.Prelude.{◌≡◌, refl, String, Option, some, true, List, [], ◌∷◌, ◌⊎◌, ◌↔◌, string_eq}
use dbkit_sql.Prelude.Dict.{Dict, get, has, set}
use dbkit_sql.Redaction.{
  is_named, named, redacted, shown, redact_params, redact_into, is_sensitive_key,
}
use dbkit_sql.Redaction.Hints.{IsHinted}
use dbkit_sql.Redaction.Params.{redact_params_iff}

abbrev same_case : String → String
same_case s = s

abbrev login : Dict String String
login = ("db_password", "hunter2") ∷ ("email", "a@b.org") ∷ ("note", "none") ∷ []

abbrev declared : Option (List String)
declared = some ("email" ∷ [])

-- The password by its hint and the address by its name; the note is shown.
redacted_login :
    redact_params same_case (some login) declared
    ≡ ("db_password", redacted) ∷ ("email", redacted) ∷ ("note", shown "none") ∷ []
unfolding redact_params redact_into is_sensitive_key set
redacted_login = refl

redact_params_iff_example :
    ((get (redact_params same_case (some login) declared) "db_password" ≡ some redacted)
      ↔ ((is_named (named declared) "db_password" ≡ true) ⊎ IsHinted "db_password"))
    × (((get (redact_params same_case (some login) declared) "db_password" ≡ some redacted)
          ⊎ (get (redact_params same_case (some login) declared) "db_password"
              ≡ some (shown "hunter2")))
        × ((j : String) → has (redact_params same_case (some login) declared) j ≡ has login j))
unfolding get
redact_params_iff_example =
    redact_params_iff same_case declared login "db_password" "hunter2"
      (refl, (refl, (refl, record {}))) refl
