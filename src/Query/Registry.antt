-- ===== src/Query/Registry.antt =====
-- The QueryRegistry of _core/query.py.
use dbkit_sql.Prelude.{
  ℕ, String, Option, none, some, Bool, true, false, List, [], ◌∷◌, ◌==◌, string_eq, nat_eq, Result,
  ok, err, if◌then◌else◌, ◌≡◌, refl, arith, Option-cases, Bool-cases, inl, inr, ◌⊎◌,
}
use dbkit_sql.Prelude.Dict.{Dict, get, set, get-set}
use dbkit_sql.Errors.{DatabaseError}
use dbkit_sql.Query.{Query, raise_programming}

abbrev pub QueryRegistry : Type 0
QueryRegistry = Dict String Query

abbrev pub duplicate_message : String
duplicate_message = "duplicate query name registered with a different statement"

abbrev store : QueryRegistry → Query → Result DatabaseError QueryRegistry
store r q = ok (set r q.name q)

-- `existing is not None and existing is not query`
abbrev add_checked : Option Query → QueryRegistry → Query → Result DatabaseError QueryRegistry
add_checked none r q = store r q
add_checked (some existing) r q =
    if existing.identity == q.identity then store r q else err (raise_programming duplicate_message)

unfoldable pub register : QueryRegistry → Query → Result DatabaseError QueryRegistry
register r q = add_checked (get r q.name) r q

-- A call that raises leaves the registry as it was.
abbrev after_call : QueryRegistry → Result DatabaseError QueryRegistry → QueryRegistry
after_call r (ok r') = r'
after_call r (err e) = r

unfoldable pub register_all : QueryRegistry → List Query → QueryRegistry
register_all r [] = r
register_all r (q ∷ qs) = register_all (after_call r (register r q)) qs

-- The registry holds this query object under this name.
abbrev pub holds : Option Query → ℕ → Bool
holds none i = false
holds (some q) i = q.identity == i

register-keeps :
    (r : QueryRegistry) (n : String) (i : ℕ) (q : Query)
    → holds (get r n) i ≡ true
    → holds (get (after_call r (register r q)) n) i ≡ true
unfolding register
register-keeps r n i q h = ground (arith, get-set r q.name n q, string_eq.eqb_iff q.name n)

-- A registered name keeps its query object through any further `register` calls, those that raise
-- included.
pub register_all-keeps :
    (r : QueryRegistry) (n : String) (i : ℕ) (qs : List Query)
    → holds (get r n) i ≡ true
    → holds (get (register_all r qs) n) i ≡ true
unfolding register_all
register_all-keeps r n i [] h = h
register_all-keeps r n i (q ∷ qs) h =
    register_all-keeps (after_call r (register r q)) n i qs (register-keeps r n i q h)

-- `register` succeeds exactly when the name is free or already this object's, and then the name
-- leads to the query registered; every other name leads where it led.
pub register-effect :
    (r : QueryRegistry) (q : Query)
    → ((r' : QueryRegistry) × (register r q ≡ ok r')
        × ((n : String) → get r' n ≡ (if q.name == n then some q else get r n)))
      ⊎ ((holds (get r q.name) q.identity ≡ false)
          × (register r q ≡ err (raise_programming duplicate_message)))
unfolding register
register-effect r q = elim (Option-cases (get r q.name)) [
  | inl free ↦ inl (set r q.name q, rw (free, add_checked) refl, λ n. get-set r q.name n q)
  | inr (existing, e) ↦ elim (Bool-cases (existing.identity == q.identity)) [
    | inl same ↦ inl (set r q.name q, rw (e, add_checked) (rw same refl), λ n. get-set r q.name n q)
    | inr other ↦ inr (rw e other, rw (e, add_checked) (rw other refl))
  ]
]
