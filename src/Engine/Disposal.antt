-- ===== src/Engine/Disposal.antt =====
-- The disposals of AsyncEngineRegistry, all of them of _async/engine.py.
use dbkit_sql.Prelude.{
  ℕ, String, Option, none, some, Bool, true, false, List, [], ◌∷◌, ◌++◌, map, length, ◌==◌,
  string_eq, if◌then◌else◌,
}
use dbkit_sql.Prelude.Dict.{Dict, get, remove}
use dbkit_sql.Engine.{EngineEntry, AsyncEngineRegistry}

abbrev engines : Dict String EngineEntry → List ℕ
engines d = map (λ p. p.1.engine) d

-- `dispose_all`
unfoldable pub dispose_all : AsyncEngineRegistry → AsyncEngineRegistry
dispose_all s = record { entries = []; disposed = s.disposed ++ engines s.entries }

abbrev drop_one : String → Option EngineEntry → AsyncEngineRegistry → AsyncEngineRegistry × Bool
drop_one k none s = (s, false)
drop_one k (some e) s =
    (record { entries = remove s.entries k; disposed = s.disposed ++ e.engine ∷ [] }, true)

-- `dispose_one`
unfoldable pub dispose_one : String → AsyncEngineRegistry → AsyncEngineRegistry × Bool
dispose_one k s = drop_one k (get s.entries k) s

-- The entries of a database, and the others.
unfoldable pub belonging : String → Dict String EngineEntry → Dict String EngineEntry
belonging db [] = []
belonging db ((k, e) ∷ d) =
    let rest = belonging db d in if e.key.database == db then (k, e) ∷ rest else rest

unfoldable pub others : String → Dict String EngineEntry → Dict String EngineEntry
others db [] = []
others db ((k, e) ∷ d) =
    let rest = others db d in if e.key.database == db then rest else (k, e) ∷ rest

-- `dispose_database`
unfoldable pub dispose_database : String → AsyncEngineRegistry → AsyncEngineRegistry × ℕ
unfolding belonging others
dispose_database db s =
    let victims = belonging db s.entries in
    (
      record { entries = others db s.entries; disposed = s.disposed ++ engines victims },
      length victims,
    )
