-- ===== src/Database/Lifecycle/Scopes.antt =====
-- Consistency scopes and the reads in them.
use dbkit_sql.Prelude.{
  ◌≡◌, refl, ◌∙◌, String, Option, none, some, Bool, true, false, List, [], ◌∷◌, ◌++◌, All,
  All-append, Result, ok, err, if-elim, not, ◌&&◌, string_eq,
}
use dbkit_sql.Prelude.Dict.{get}
use dbkit_sql.Errors.{DatabaseError}
use dbkit_sql.Config.{DatabaseConfig}
use dbkit_sql.Routing.{DatabaseTarget, ResolvedRoute, primary, wants_replica}
use dbkit_sql.Database.{AsyncDatabase}
use dbkit_sql.Database.Target.{resolve_target, resolve_in, routed, is_empty, shard_of}
use dbkit_sql.Database.Lifecycle.{Mode, consistency_scope, resolve_with}

-- What a task does with its mode: read with it, and open scopes in scopes.
pub data Use (K : Type 0) : Type 0 where
  done : Use K
  resolves : DatabaseTarget K → Use K → Use K
  opens : String → Use K → Use K → Use K

abbrev pub Answer : Type 0
Answer = Result DatabaseError ResolvedRoute

-- The answer sent a read of this database to its primary and took no turn of the selector.
abbrev pub IsPrimary : AsyncDatabase → AsyncDatabase × Answer → Type 0
IsPrimary s (s', ok r) = (r.role ≡ primary) × (s' ≡ s)
IsPrimary s (s', err e) = s' ≡ s

and_false : (b : Bool) → (b && false) ≡ false
and_false true = refl
and_false false = refl

abbrev pub FromPrimary : Answer → Type 0
FromPrimary (ok r) = r.role ≡ primary
FromPrimary (err e) = Unit

module _ {K : Type 0} (shards : String → K → Result DatabaseError String) where
  pinned-IsPrimary :
      (t : DatabaseTarget K) (s : AsyncDatabase) → IsPrimary s (resolve_target shards true t s)
  unfolding resolve_target
  pinned-IsPrimary t s = by_database (get s.config.databases t.database)
    where
      by_shard :
          (db : DatabaseConfig) (o : Result DatabaseError String)
          → IsPrimary s (routed shards true t db o s)
      by_shard db (err e) = refl
      by_shard db (ok shard) =
          if-elim (IsPrimary s) ((wants_replica t.role && not (is_empty db.replicas)) && false)
            (λ open_test.
              let shut = and_false (wants_replica t.role && not (is_empty db.replicas)) in cc)
            (λ _. (refl, refl))

      by_database : (o : Option DatabaseConfig) → IsPrimary s (resolve_in shards true t o s)
      by_database none = refl
      by_database (some db) = by_shard db (shard_of shards t.database t.shard_key)

  -- The answers of a task's reads in turn, with the mode that is left.
  pub perform : Use K → Mode → AsyncDatabase → Mode × (AsyncDatabase × List Answer)
  perform done m s = (m, (s, []))
  perform (resolves t rest) m s =
      let (s', a) = resolve_with shards m t s in
      let (m', (s'', answers)) = perform rest m s' in (m', (s'', a ∷ answers))
  perform (opens mode body rest) m s =
      let (m', (s', answers)) = consistency_scope mode (λ k. perform body k s) m in
      let (m'', (s'', others)) = perform rest m' s' in (m'', (s'', answers ++ others))

  perform-mode : (u : Use K) (m : Mode) (s : AsyncDatabase) → (perform u m s).0 ≡ m
  unfolding perform consistency_scope
  perform-mode done m s = refl
  perform-mode (resolves t rest) m s = perform-mode rest m (resolve_with shards m t s).0
  perform-mode (opens mode body rest) m s = perform-mode rest m (perform body (some mode) s).1.0

  answer-primary :
      (s : AsyncDatabase) (a : AsyncDatabase × Answer) → IsPrimary s a → (a.0 ≡ s) × FromPrimary a.1
  answer-primary s (s', ok r) h = (h.1, h.0)
  answer-primary s (s', err e) h = (h, tt)

  perform-primary :
      (u : Use K) (x : String) (s : AsyncDatabase)
      → ((perform u (some x) s).1.0 ≡ s) × All FromPrimary (perform u (some x) s).1.1
  unfolding perform consistency_scope resolve_with
  perform-primary done x s = (refl, tt)
  perform-primary (resolves t rest) x s =
      let a = resolve_target shards true t s in
      let (stays, here) = answer-primary s a (pinned-IsPrimary t s) in
      let (same, others) = perform-primary rest x a.0 in (same ∙ stays, (here, others))
  perform-primary (opens mode body rest) x s =
      let (stays, answers) = perform-primary body mode s in
      let (same, others) = perform-primary rest x (perform body (some mode) s).1.0 in
      (same ∙ stays, All-append FromPrimary _ _ answers others)

  -- Whatever a task does in a consistency scope, scopes in it included: each of its reads is sent to the
  -- primary or fails, none takes a turn of the replica selector, and after the scope the task has the mode
  -- again that it had before.
  pub scope-reads_primary :
      (mode : String) (body : Use K) (m : Mode) (s : AsyncDatabase)
      → let (m', (s', answers)) = consistency_scope mode (λ k. perform body k s) m in
        (m' ≡ m) × (s' ≡ s) × All FromPrimary answers
  unfolding consistency_scope
  scope-reads_primary mode body m s =
      let (stays, answers) = perform-primary body mode s in (refl, stays, answers)
