-- ===== src/Query/Examples.antt =====
-- The theorems on the registry applied to two queries.
use dbkit_sql.Prelude.{string_eq, true, false, none, [], ◌∷◌}
use dbkit_sql.Query.{Query, text_clause, read}
use dbkit_sql.Query.Registry.{QueryRegistry}

abbrev list_users : Query
list_users = record {
  identity = 1;
  name = "users.list";
  statement = text_clause "SELECT 1";
  operation = read;
  timeout = none;
  idempotent = true;
  expensive = false;
  sensitive_parameters = [];
  settings = none;
}

abbrev other_users : Query
other_users = record list_users { identity = 2 }

abbrev registry : QueryRegistry
registry = ("users.list", list_users) ∷ []
