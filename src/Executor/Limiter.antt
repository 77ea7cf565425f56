-- ===== src/Executor/Limiter.antt =====
-- `ConcurrencyLimiter` of _async/resilience.py under many operations at once. The limiter keeps the free
-- slots of each tier. An operation enters its tiers in the order of its code, runs its block once it is in
-- all of them, and gives back what it holds when it ends, however it ends. Which operation goes next, and
-- when a wait is given up (by its timeout or a cancellation), is chosen from outside.
pub mod Slots
pub mod Progress
use dbkit_sql.Prelude.{
  ℕ, zero, suc, ◌≡◌, ◌≢◌, String, Option, none, some, List, [], ◌∷◌, ◌++◌, ◌==◌, string_eq,
}
use dbkit_sql.Prelude.Dict.{get, set}
use dbkit_sql.Config.{ConcurrencyConfig}
use dbkit_sql.Query.{Query}
use dbkit_sql.Executor.{ConcurrencyLimiter, new_limiter}
use dbkit_sql.Executor.Resilience.{tiers}

-- An operation: the slots that it holds, the last one first, and the tiers that it still has to enter.
pub record Operation : Type 0 where
  pub held : List String
  pub wanted : List String

-- The tiers of `_bulk_write` and `copy_records`.
unfoldable pub bulk_tiers : List String
bulk_tiers = "database" ∷ "bulk" ∷ []

abbrev pub begin_operation : List String → Operation
begin_operation tiers = record { held = []; wanted = tiers }

-- `acquire(tier)` as far as it does not wait: a slot of a bounded tier is taken, and none is needed of an
-- unbounded one. `none` where the caller has to wait.
abbrev pub take_slot :
    Option ℕ → String → ConcurrencyLimiter → List String → Option (ConcurrencyLimiter × List String)
take_slot none tier l held = some (l, held)
take_slot (some zero) tier l held = none
take_slot (some (suc n)) tier l held = some (set l tier n, tier ∷ held)

unfoldable pub enter_tier :
    String → ConcurrencyLimiter → List String → Option (ConcurrencyLimiter × List String)
enter_tier tier l held = take_slot (get l tier) tier l held

abbrev pub one_more : Option ℕ → String → ConcurrencyLimiter → ConcurrencyLimiter
one_more none tier l = l
one_more (some n) tier l = set l tier (suc n)

-- `sem.release()`
unfoldable pub release_slot : String → ConcurrencyLimiter → ConcurrencyLimiter
release_slot tier l = one_more (get l tier) tier l

-- The exit stack unwinds: the last slot first.
unfoldable pub release_all : List String → ConcurrencyLimiter → ConcurrencyLimiter
release_all [] l = l
release_all (t ∷ ts) l = release_all ts (release_slot t l)

pub record System : Type 0 where
  pub limiter : ConcurrencyLimiter
  pub operations : List Operation

-- What a schedule may do next with the operation between `before` and `after`.
pub data Move (s u : System) : Type 0 where
  enters :
      (before after : List Operation) (o : Operation) (tier : String) (rest held : List String)
      (l : ConcurrencyLimiter)
      → s.operations ≡ before ++ o ∷ after
      → o.wanted ≡ tier ∷ rest
      → enter_tier tier s.limiter o.held ≡ some (l, held)
      → u ≡ record {
        limiter = l;
        operations = before ++ record { held = held; wanted = rest } ∷ after;
      }
      → Move s u
  finishes :
      (before after : List Operation) (o : Operation)
      → s.operations ≡ before ++ o ∷ after
      → o.wanted ≡ []
      → u ≡ record { limiter = release_all o.held s.limiter; operations = before ++ after }
      → Move s u

-- Besides, an operation may begin: an attempt of `execute_with_resilience`, whose tiers depend on its
-- query, or a bulk write or COPY; and one may be given up before it holds all its slots.
pub data Step (s u : System) : Type 0 where
  moves : Move s u → Step s u
  begins_attempt :
      (q : Option Query)
      → u ≡ record s { operations = begin_operation (tiers q) ∷ s.operations }
      → Step s u
  begins_bulk : u ≡ record s { operations = begin_operation bulk_tiers ∷ s.operations } → Step s u
  gives_up :
      (before after : List Operation) (o : Operation)
      → s.operations ≡ before ++ o ∷ after
      → o.wanted ≢ []
      → u ≡ record { limiter = release_all o.held s.limiter; operations = before ++ after }
      → Step s u

pub data Reach (c : ConcurrencyConfig) : System → Type 0 where
  starts : Reach c (record { limiter = new_limiter c; operations = [] })
  next : {s u : System} → Reach c s → Step s u → Reach c u

-- Moves in a row that end in `u`.
pub data Moves (u : System) : System → Type 0 where
  stays : Moves u u
  more : {s t : System} → Move s t → Moves u t → Moves u s
