-- ===== src/Database/Dynamic.antt =====
-- The dynamic databases: which names they have, and how many there may be.
pub mod Names
use dbkit_sql.Prelude.{
  ℕ, suc, ◌+◌, ◌≤◌, ◌<◌, String, Option, none, some, Bool, true, false, ◌≡◌, refl, ◌⊎◌, inl, inr,
  List, [], ◌∷◌, ◌++◌, length, arith, ◌==◌, string_eq, if◌then◌else◌, Result, ok, err, ltb,
  Bool-cases,
}
use dbkit_sql.Prelude.Dict.{
  Dict, get, set, remove, has, Distinct, get-set, get-remove, set-Distinct, remove-Distinct,
}
use dbkit_sql.Config.{DatabaseConfig, DbkitConfig, PoolConfig, TargetConfig}
use dbkit_sql.Database.{
  AsyncDatabase, member, without, touch_dynamic, purge, forget, evict_over, evict_with,
  evict_lru_databases, install, check, checked, connect_primary, connected, register_database,
  ensure_database, unregister_database, close, new_database, is_same, registered,
}
use dbkit_sql.Database.Events.{Event, registers, ensures, unregisters, closes, step, run}
use dbkit_sql.Database.Dynamic.Names.{
  NoRepeat, member-without, member-snoc, without-NoRepeat, snoc-NoRepeat, length-without,
  length-snoc,
}

-- The dynamic names are distinct, none is static, and with the static ones they are all there is.
pub record Tracks (static dynamic : List String) (d : Dict String DatabaseConfig) : Type 0 where
  pub distinct : Distinct d
  pub no_repeat : NoRepeat dynamic
  pub disjoint : (n : String) → member n dynamic ≡ true → member n static ≡ false
  pub live : (n : String) → member n dynamic ≡ true → has d n ≡ true
  pub covered : (n : String) → has d n ≡ true → (member n static ≡ true) ⊎ (member n dynamic ≡ true)

pub record Inv (c : DbkitConfig) (static : List String) (s : AsyncDatabase) : Type 0 where
  pub same_static : s.static_databases ≡ static
  pub same_cap : s.config.max_databases ≡ c.max_databases
  pub tracks : Tracks static s.dynamic_lru s.config.databases
  pub capped : (limit : ℕ) → c.max_databases ≡ some limit → length s.dynamic_lru ≤ limit

pub forget-Tracks :
    (static ns : List String) (n : String) (d : Dict String DatabaseConfig)
    → Tracks static (n ∷ ns) d
    → Tracks static ns (remove d n)
unfolding member
forget-Tracks static ns n d h = record {
  distinct = remove-Distinct d n h.distinct;
  no_repeat = h.no_repeat.1;
  disjoint = λ m e. ground (arith, h.disjoint m, string_eq.eqb_iff n m);
  live = λ m e.
      ground (arith, h.live m, h.no_repeat.0, get-remove d n m h.distinct, string_eq.eqb_iff n m);
  covered = λ m e. ground (arith, h.covered m, get-remove d n m h.distinct, string_eq.eqb_iff n m);
}

pub without-Tracks :
    (static ns : List String) (n : String) (d : Dict String DatabaseConfig)
    → Tracks static ns d
    → Tracks static (without n ns) (remove d n)
without-Tracks static ns n d h = record {
  distinct = remove-Distinct d n h.distinct;
  no_repeat = without-NoRepeat n ns h.no_repeat;
  disjoint = λ m e. ground (arith, h.disjoint m, member-without n m ns h.no_repeat);
  live = λ m e.
      ground (arith, h.live m, member-without n m ns h.no_repeat, get-remove d n m h.distinct);
  covered = λ m e.
      ground (arith, h.covered m, member-without n m ns h.no_repeat, get-remove d n m h.distinct);
}

-- A use of a name that is registered in `d'`, which otherwise has the names of `d`.
pub touch-Tracks :
    (static ns : List String) (n : String) (d d' : Dict String DatabaseConfig)
    → member n static ≡ false
    → Distinct d'
    → ((m : String) → has d' m ≡ (if n == m then true else has d m))
    → Tracks static ns d
    → Tracks static (without n ns ++ n ∷ []) d'
touch-Tracks static ns n d d' f dist same h = record {
  distinct = dist;
  no_repeat =
      snoc-NoRepeat n (without n ns)
        (ground (arith, member-without n n ns h.no_repeat, string_eq.eqb_iff n n))
        (without-NoRepeat n ns h.no_repeat);
  disjoint = λ m e. ground (
    arith,
    h.disjoint m,
    member-snoc n m (without n ns),
    member-without n m ns h.no_repeat,
    string_eq.eqb_iff n m,
  );
  live = λ m e.
      ground (
        arith,
        h.live m,
        same m,
        member-snoc n m (without n ns),
        member-without n m ns h.no_repeat,
      );
  covered = λ m e. ground (
    arith,
    h.covered m,
    same m,
    member-snoc n m (without n ns),
    member-without n m ns h.no_repeat,
  );
}

-- A use of a static name leaves the dynamic ones alone.
pub static-Tracks :
    (static ns : List String) (n : String) (d d' : Dict String DatabaseConfig)
    → member n static ≡ true
    → Distinct d'
    → ((m : String) → has d' m ≡ (if n == m then true else has d m))
    → Tracks static ns d
    → Tracks static ns d'
static-Tracks static ns n d d' f dist same h = record {
  distinct = dist;
  no_repeat = h.no_repeat;
  disjoint = h.disjoint;
  live = λ m e. ground (arith, h.live m, same m);
  covered = λ m e. ground (arith, h.covered m, same m, string_eq.eqb_iff n m);
}
