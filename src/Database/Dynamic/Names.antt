-- ===== src/Database/Dynamic/Names.antt =====
-- The names of the dynamic databases: a list without repeats, and what a use of a name does to it.
use dbkit_sql.Prelude.{
  suc, String, true, false, ◌≡◌, refl, List, [], ◌∷◌, ◌++◌, length, arith, ◌==◌, string_eq,
  if◌then◌else◌,
}
use dbkit_sql.Database.{member, without}

abbrev pub NoRepeat : List String → Type 0
NoRepeat [] = Unit
NoRepeat (x ∷ xs) = (member x xs ≡ false) × NoRepeat xs

pub member-without :
    (n m : String) (xs : List String)
    → NoRepeat xs
    → member m (without n xs) ≡ (if n == m then false else member m xs)
unfolding member without
member-without n m [] h = ground arith
member-without n m (x ∷ xs) h = ground (
  arith,
  member-without n m xs h.1,
  string_eq.eqb_iff x n,
  string_eq.eqb_iff x m,
  string_eq.eqb_iff n m,
)

pub member-snoc :
    (n m : String) (xs : List String)
    → member m (xs ++ n ∷ []) ≡ (if n == m then true else member m xs)
unfolding member
member-snoc n m [] = ground arith
member-snoc n m (x ∷ xs) = ground (arith, member-snoc n m xs)

pub without-NoRepeat : (n : String) (xs : List String) → NoRepeat xs → NoRepeat (without n xs)
unfolding member without
without-NoRepeat n [] h = tt
without-NoRepeat n (x ∷ xs) h =
    ground (arith, without-NoRepeat n xs h.1, member-without n x xs h.1, string_eq.eqb_iff n x)

pub snoc-NoRepeat :
    (n : String) (xs : List String) → member n xs ≡ false → NoRepeat xs → NoRepeat (xs ++ n ∷ [])
unfolding member
snoc-NoRepeat n [] e h = (refl, tt)
snoc-NoRepeat n (x ∷ xs) e h =
    ground
      (arith, snoc-NoRepeat n xs, member-snoc n x xs, string_eq.eqb_iff n x, string_eq.eqb_iff x n)

pub length-without :
    (n : String) (xs : List String)
    → (if member n xs then suc (length (without n xs)) else length (without n xs)) ≡ length xs
unfolding member without
length-without n [] = refl
length-without n (x ∷ xs) = ground (arith, length-without n xs)

pub length-snoc : (n : String) (xs : List String) → length (xs ++ n ∷ []) ≡ suc (length xs)
length-snoc n [] = refl
length-snoc n (x ∷ xs) = omega (arith, length-snoc n xs)
