-- ===== src/Config/Tree.antt =====
-- The tree of plain values that a configuration is built from, as YAML or JSON gives it, and how the builders
-- of _core/config.py read a value of it. What `int` and `float` make of a value is a parameter. Where a
-- builder takes a value as it is (a URL, a name, a limit), one of another type than its field's is not
-- followed further, and neither is a negative number but for the sizes of a pool.
use dbkit_sql.Prelude.{
  ℕ, ℤ, pos, negsuc, String, Option, none, some, Bool, true, false, ◌==◌, string_eq, nat_beq, not,
  Result, ok, err, Fraction, if◌then◌else◌, ◌>>=◌,
}
use dbkit_sql.Errors.{DatabaseError}

-- A value of the tree. A dict has no key twice.
mutual
  pub data Node : Type 0 where
    null : Node
    truth : Bool → Node
    number : Fraction → Node
    text : String → Node
    mapping : Entries → Node
    sequence : Nodes → Node

  pub data Entries : Type 0 where
    no_entries : Entries
    entry : String → Node → Entries → Entries

  pub data Nodes : Type 0 where
    no_nodes : Nodes
    item : Node → Nodes → Nodes

-- What a builder raises: DatabaseConfigurationError, one of the errors that `from_dict` makes it of, or an
-- AttributeError; or a value that is not followed.
pub data LoadError : Type 0 where
  refused : DatabaseError → LoadError
  key_type_or_value_error attribute_error not_followed : LoadError

abbrev pub Loaded : Type 0 → Type 0
Loaded A = Result LoadError A

-- `data.get(key)`
unfoldable pub lookup : Entries → String → Option Node
lookup no_entries key = none
lookup (entry k n rest) key = if k == key then some n else lookup rest key

-- `data.get(a, data.get(b))`
abbrev pub or_node : Option Node → Option Node → Option Node
or_node (some n) o = some n
or_node none o = o

-- `bool(value)`
unfoldable pub truthy : Node → Bool
truthy null = false
truthy (truth b) = b
truthy (number f) = not (nat_beq f.num 0)
truthy (text s) = not (s == "")
truthy (mapping no_entries) = false
truthy (mapping (entry k n rest)) = true
truthy (sequence no_nodes) = false
truthy (sequence (item n rest)) = true

-- `int`, `float` of seconds and of milliseconds, and `float`; none where they raise.
pub record Numbers : Type 0 where
  pub int : Node → Option ℤ
  pub seconds : Node → Option ℕ
  pub milliseconds : Node → Option ℕ
  pub float : Node → Option Fraction

abbrev pub converted : {A : Type 0} → Option A → Loaded A
converted none = err key_type_or_value_error
converted (some a) = ok a

-- `f(data.get(key, default))`
abbrev pub read_with : {A : Type 0} → (Node → Option A) → Option Node → A → Loaded A
read_with f none default = ok default
read_with f (some n) default = converted (f n)

-- Of the integers only the sizes of a pool are followed below zero.
abbrev pub natural : ℤ → Loaded ℕ
natural (pos n) = ok n
natural (negsuc n) = err not_followed

abbrev pub read_natural : (Node → Option ℤ) → Option Node → ℕ → Loaded ℕ
read_natural int o default = read_with int o (pos default) >>= natural

unfoldable pub flag : Option Node → Bool → Bool
unfolding truthy
flag none default = default
flag (some n) default = truthy n

-- `int(x) if x is not None else None`
abbrev pub read_limit : (Node → Option ℤ) → Option Node → Loaded (Option ℕ)
read_limit int none = ok none
read_limit int (some null) = ok none
read_limit int (some n) = converted (int n) >>= natural >>= λ k. ok (some k)

abbrev pub kept_text : Option Node → String → Loaded String
kept_text none default = ok default
kept_text (some (text s)) default = ok s
kept_text (some _) default = err not_followed

abbrev pub kept_reset : Option Node → Loaded (Option String)
kept_reset none = ok (some "rollback")
kept_reset (some null) = ok none
kept_reset (some (text s)) = ok (some s)
kept_reset (some _) = err not_followed
