-- ===== src/Errors/Hierarchy.antt =====
-- What the error table promises the policies above it: which classes are retryable, which ones trip
-- the circuit breaker, and what a subclass inherits.
use dbkit_sql.Prelude.{
  String, Option, none, some, true, false, ◌≡◌, ◌≢◌, refl, ◌↔◌, ◌⊎◌, arith, string_eq,
}
use dbkit_sql.Prelude.Dict.{get, get-All}
use dbkit_sql.Errors.{
  ErrorClass, DatabaseError, Context, category_of, retryable_of, is_overload, is_timeout,
  commit_unknown, make,
}
use dbkit_sql.Errors.Sqlstate.{
  error_class_for_sqlstate, sqlstate_map, sqlstate_class_map, first_two,
}
use dbkit_sql.Errors.Classify.{RawError, raw, classify, class_of, sqlstate_of, from_sqlalchemy_type}

-- The attributes of an error are those that its class declares.
pub record IsDeclared (e : DatabaseError) : Type 0 where
  pub category : e.category ≡ category_of e.cls
  pub retryable : e.retryable ≡ retryable_of e.cls

pub make-IsDeclared :
    (c : ErrorClass) (message : String) (s : Option String) (ctx : Context)
    → IsDeclared (make c message s ctx)
unfolding make
make-IsDeclared c message s ctx = record { category = refl; retryable = refl }

-- A retryable class is one of overload or timeout, so it is never answered as a bug.
pub retryable-classes :
    (c : ErrorClass)
    → retryable_of c ≡ true
    → (is_overload (category_of c) ≡ true) ⊎ (is_timeout (category_of c) ≡ true)
unfolding retryable_of category_of is_overload is_timeout
retryable-classes c h = ground arith

-- Classification of any exception that is no DatabaseError gives the category and the retryability
-- that the chosen class declares.
pub classify-IsDeclared :
    (sanitize : String → String) (x : RawError) (ctx : Context)
    → IsDeclared (classify sanitize (raw x) ctx)
unfolding classify make
classify-IsDeclared sanitize x ctx = ground arith

-- In the exact table `commit_unknown` stands at one code, and in the class table nowhere.
map-commit_unknown : (s : String) → get sqlstate_map s ≡ some commit_unknown → s ≡ "40003"
unfolding sqlstate_map
map-commit_unknown s h =
    get-All (λ k v. v ≡ commit_unknown → k ≡ "40003") sqlstate_map s commit_unknown (ground arith) h
      refl

class_map-commit_unknown : (s : String) → get sqlstate_class_map s ≢ some commit_unknown
unfolding sqlstate_class_map
class_map-commit_unknown s h =
    get-All (λ k v. v ≢ commit_unknown) sqlstate_class_map s commit_unknown (ground arith) h refl

error_class-commit_unknown :
    (o : Option String) → error_class_for_sqlstate o ≡ some commit_unknown → o ≡ some "40003"
unfolding error_class_for_sqlstate
error_class-commit_unknown none h = cc
error_class-commit_unknown (some s) h =
    ground (arith, map-commit_unknown s, class_map-commit_unknown (first_two s))

error_class-40003 : error_class_for_sqlstate (some "40003") ≡ some commit_unknown
unfolding error_class_for_sqlstate sqlstate_map get
error_class-40003 = refl

class_of-commit_unknown :
    (x : RawError) → class_of x ≡ commit_unknown → sqlstate_of x ≡ some "40003"
unfolding class_of from_sqlalchemy_type
class_of-commit_unknown x h = ground (arith, error_class-commit_unknown (sqlstate_of x))

class_of-40003 : (x : RawError) → sqlstate_of x ≡ some "40003" → class_of x ≡ commit_unknown
unfolding class_of
class_of-40003 x h = ground (arith, error_class-40003)

unknown→code :
    (sanitize : String → String) (x : RawError) (ctx : Context)
    → (classify sanitize (raw x) ctx).transaction_state_unknown ≡ true
    → (x.is_timeout ≡ false) × (sqlstate_of x ≡ some "40003")
unfolding classify make
unknown→code sanitize x ctx h = ground (arith, class_of-commit_unknown x)

code→unknown :
    (sanitize : String → String) (x : RawError) (ctx : Context)
    → (x.is_timeout ≡ false) × (sqlstate_of x ≡ some "40003")
    → (classify sanitize (raw x) ctx).transaction_state_unknown ≡ true
unfolding classify make
code→unknown sanitize x ctx h = ground (arith, class_of-40003 x)

-- A classified exception leaves the transaction outcome unknown exactly when it is no client-side
-- timeout and the server reported SQLSTATE 40003, whatever its SQLAlchemy class is.
pub classify_unknown_iff :
    (sanitize : String → String) (x : RawError) (ctx : Context)
    → ((classify sanitize (raw x) ctx).transaction_state_unknown ≡ true)
      ↔ ((x.is_timeout ≡ false) × (sqlstate_of x ≡ some "40003"))
classify_unknown_iff sanitize x ctx = (unknown→code sanitize x ctx, code→unknown sanitize x ctx)
