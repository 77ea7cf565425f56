-- ===== src/Routing/RoundRobin.antt =====
-- RoundRobinReplicaSelector of _core/routing.py.
use dbkit_sql.Prelude.{
  ℕ, suc, ◌+◌, ◌%◌, String, Option, none, some, ◌==◌, string_eq, ◌≡◌, refl, List, [], ◌∷◌,
  if◌then◌else◌, arith, get_elem?, length, or_else,
}
use dbkit_sql.Prelude.Dict.{Dict, get, set, remove, get-set}

pub record RoundRobin : Type 0 where
  pub names : Dict String (List String)
  pub counters : Dict String ℕ

-- `dict.fromkeys(self._names, 0)`
unfoldable pub zero_counters : Dict String (List String) → Dict String ℕ
zero_counters [] = []
zero_counters ((db, names) ∷ d) = (db, 0) ∷ zero_counters d

-- The constructor; a dict of names is its own copy here.
unfoldable pub new : Dict String (List String) → RoundRobin
unfolding zero_counters
new replicas = record { names = replicas; counters = zero_counters replicas }

abbrev pub rotate : RoundRobin → String → List String → RoundRobin × Option String
rotate s db [] = (s, none)
rotate s db (n ∷ ns) =
    let c = or_else (get s.counters db) 0 in
    (record s { counters = set s.counters db (c + 1) }, get_elem? (n ∷ ns) (c % length (n ∷ ns)))

-- `select`, which does not read the shard
unfoldable pub select : RoundRobin → String → String → RoundRobin × Option String
select s db shard_id = rotate s db (or_else (get s.names db) [])

abbrev default_counter : Option ℕ → Dict String ℕ → String → Dict String ℕ
default_counter none counters db = set counters db 0
default_counter (some c) counters db = counters

unfoldable pub set_replicas : RoundRobin → String → List String → RoundRobin
set_replicas s db [] = record s { names = remove s.names db; counters = remove s.counters db }
set_replicas s db (n ∷ ns) = record s {
  names = set s.names db (n ∷ ns);
  counters = default_counter (get s.counters db) s.counters db;
}

-- The selector after a list of selections, for whatever databases.
unfoldable pub select_all : RoundRobin → List String → RoundRobin
select_all s [] = s
select_all s (db ∷ dbs) = select_all (select s db "default").0 dbs

-- How often a database stands in a list of selections.
abbrev pub count : String → List String → ℕ
count db [] = 0
count db (x ∷ xs) = let rest = count db xs in if x == db then suc rest else rest

abbrev pub counter : RoundRobin → String → ℕ
counter s db = or_else (get s.counters db) 0

names-select : (s : RoundRobin) (x : String) → (select s x "default").0.names ≡ s.names
unfolding select
names-select s x = ground arith

counter-select :
    (s : RoundRobin) (x db n : String) (ns : List String)
    → get s.names db ≡ some (n ∷ ns)
    → counter (select s x "default").0 db ≡ (if x == db then suc (counter s db) else counter s db)
unfolding select
counter-select s x db n ns e =
    ground (arith, get-set s.counters x db (counter s x + 1), string_eq.eqb_iff x db)

counter-select_all :
    (s : RoundRobin) (dbs : List String) (db n : String) (ns : List String)
    → get s.names db ≡ some (n ∷ ns)
    → counter (select_all s dbs) db ≡ counter s db + count db dbs
unfolding select_all
counter-select_all s [] db n ns e = omega arith
counter-select_all s (x ∷ dbs) db n ns e = ground (
  arith,
  counter-select_all (select s x "default").0 dbs db n ns,
  names-select s x,
  counter-select s x db n ns e,
)

names-select_all : (s : RoundRobin) (dbs : List String) → (select_all s dbs).names ≡ s.names
unfolding select_all
names-select_all s [] = refl
names-select_all s (x ∷ dbs) =
    ground (arith, names-select_all (select s x "default").0 dbs, names-select s x)

-- After any selections, for this database and others in whatever order, the next answer for a database
-- with replicas is the one at its counter plus the number of its own selections, modulo the number of
-- its replicas: every replica comes in turn, and other databases do not disturb the turn.
pub select_turn :
    (s : RoundRobin) (dbs : List String) (db shard n : String) (ns : List String)
    → get s.names db ≡ some (n ∷ ns)
    → (select (select_all s dbs) db shard).1
      ≡ get_elem? (n ∷ ns) ((counter s db + count db dbs) % suc (length ns))
unfolding select
select_turn s dbs db shard n ns e =
    ground (arith, names-select_all s dbs, counter-select_all s dbs db n ns e)
