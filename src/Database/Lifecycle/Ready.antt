-- ===== src/Database/Lifecycle/Ready.antt =====
-- What health and readiness report.
use dbkit_sql.Prelude.{
  ◌≡◌, ◌↔◌, refl, sym, subst, ap, ◌∙◌, String, Option, none, some, Bool, true, false, List, [], ◌∷◌,
  ◌++◌, ◌&&◌, ℕ, Result, ok, err, ◌<>◌, arith, if◌then◌else◌,
}
use mathlib.Core.List.{append_assoc, append-nil}
use dbkit_sql.Errors.Classify.{Raised, database, classify}
use dbkit_sql.Errors.{DatabaseError, no_context}
use dbkit_sql.Connection.{is_cancellation}
use dbkit_sql.Connection.Keeps.{NotCancelled}
use dbkit_sql.Config.{PoolConfig, TargetConfig}
use dbkit_sql.Engine.{AsyncEngineRegistry, EngineEntry, get_engine}
use dbkit_sql.Database.{AsyncDatabase, primary_route}
use dbkit_sql.Database.Lifecycle.{
  TargetHealth, HealthReport, required_names, ping, pinged, reach, reported, uncaught, succeeded,
  next_target, health_over, health, demand, require_ready,
}

-- Whether all targets are healthy.
abbrev pub all_healthy : List TargetHealth → Bool
all_healthy [] = true
all_healthy (t ∷ ts) = t.healthy && all_healthy ts

abbrev pub succeeds : {E A : Type 0} → Result E A → Bool
succeeds (ok a) = true
succeeds (err e) = false

module _ (scheme : String → String) (create : TargetConfig → PoolConfig → Option ℕ) (now : ℕ)
    (pings : String → Option Raised) where
  -- What is asked of the registry for the primary of a database.
  abbrev pub primary_engine :
      String → AsyncDatabase → AsyncEngineRegistry × Result DatabaseError EngineEntry
  primary_engine n s = get_engine scheme create s.config now (primary_route n) s.registry

  -- Each name with a target under its key, healthy exactly if the registry gives its primary an engine and
  -- the ping of that engine does not fail; the registry is asked in this order.
  abbrev pub Told : List String → AsyncDatabase → List TargetHealth → Type 0
  Told [] s ts = ts ≡ []
  Told (n ∷ ns) s [] = ⊥
  Told (n ∷ ns) s (t ∷ ts) =
      (t.key ≡ n <> ".primary")
      × ((t.healthy ≡ true) ↔ ((succeeds (primary_engine n s).1 ≡ true) × (pings n ≡ none)))
      × Told ns (record s { registry = (primary_engine n s).0 }) ts

module _ (sanitize : String → String) (scheme : String → String)
    (create : TargetConfig → PoolConfig → Option ℕ) (now : ℕ) (pings : String → Option Raised)
    (calm : (n : String) → NotCancelled (pings n)) where
  ping-caught : (n : String) → uncaught (ping sanitize scheme create now pings n) ≡ none
  unfolding ping
  ping-caught n = by_outcome (pings n) (calm n)
    where
      by_outcome :
          (o : Option Raised)
          → NotCancelled o
          → uncaught (elim o [
            | none ↦ ok tt
            | some e ↦
                err (if is_cancellation e then e else database (classify sanitize e no_context))
          ])
            ≡ none
      by_outcome none c = refl
      by_outcome (some e) c = rw (c e refl) refl

  reach-caught :
      (n : String) (s : AsyncDatabase)
      → uncaught (reach sanitize scheme create now pings true n s).1 ≡ none
  unfolding reach
  reach-caught n s = by_engine (get_engine scheme create s.config now (primary_route n) s.registry)
    where
      by_engine :
          (a : AsyncEngineRegistry × Result DatabaseError EngineEntry)
          → uncaught (pinged sanitize scheme create now pings true n s a).1 ≡ none
      by_engine (r, ok entry) = ping-caught n
      by_engine (r, err e) = refl

  all_healthy-append :
      (ts us : List TargetHealth) → all_healthy (ts ++ us) ≡ (all_healthy ts && all_healthy us)
  all_healthy-append [] us = refl
  all_healthy-append (t ∷ ts) us = ground (arith, all_healthy-append ts us)

  -- The state and the outcome after one database was reached.
  reach-tells :
      (n : String) (s : AsyncDatabase)
      → let a = reach sanitize scheme create now pings true n s in
        let e = primary_engine scheme create now pings n s in
        (a.0 ≡ record s { registry = e.0 })
        × ((succeeded a.1 ≡ true) ↔ ((succeeds e.1 ≡ true) × (pings n ≡ none)))
  unfolding reach
  reach-tells n s = by_engine (get_engine scheme create s.config now (primary_route n) s.registry)
    where
      by_ping :
          (o : Option Raised)
          → (succeeded (elim o [
            | none ↦ ok tt
            | some e ↦
                err (if is_cancellation e then e else database (classify sanitize e no_context))
          ])
              ≡ true)
            ↔ ((true ≡ true) × (o ≡ none))
      by_ping none = (λ h. (refl, refl), λ h. refl)
      by_ping (some e) = (λ h. cc h, λ h. cc (h.1))

      by_engine :
          (a : AsyncEngineRegistry × Result DatabaseError EngineEntry)
          → ((pinged sanitize scheme create now pings true n s a).0 ≡ record s { registry = a.0 })
            × ((succeeded (pinged sanitize scheme create now pings true n s a).1 ≡ true)
                ↔ ((succeeds a.1 ≡ true) × (pings n ≡ none)))
      by_engine (r, ok entry) = (refl, unfold ping in by_ping (pings n))
      by_engine (r, err e) = (refl, (λ h. cc h, λ h. cc (h.0)))

  -- What a report says of the names asked for, after the targets reported before.
  abbrev Reports :
      List String
      → Bool
      → List TargetHealth
      → AsyncDatabase
      → AsyncDatabase × Result Raised HealthReport
      → Type 0
  Reports ns ready ts s a =
      (us : List TargetHealth) × (a.1
        ≡ ok (record { live = true; ready = ready && all_healthy us; targets = ts ++ us }))
      × Told scheme create now pings ns s us

  abbrev report : Bool → List TargetHealth → Result Raised HealthReport
  report b ts = ok (record { live = true; ready = b; targets = ts })

  same_report :
      (b c : Bool) (ts us : List TargetHealth) → b ≡ c → ts ≡ us → report b ts ≡ report c us
  same_report b c ts us e f = ap (λ x. report x ts) e ∙ ap (report c) f

  and_true : (b : Bool) → b ≡ (b && true)
  and_true true = refl
  and_true false = refl

  and_assoc : (a b c : Bool) → ((a && b) && c) ≡ (a && (b && c))
  and_assoc true b c = refl
  and_assoc false b c = refl

  Reports-target :
      (n : String) (ns : List String) (ready : Bool) (ts : List TargetHealth) (s : AsyncDatabase)
      (a : AsyncDatabase × Result Raised (Unit {0}))
      (rest : Bool → List TargetHealth → AsyncDatabase → AsyncDatabase × Result Raised HealthReport)
      → let e = primary_engine scheme create now pings n s in
        uncaught a.1 ≡ none
        → a.0 ≡ record s { registry = e.0 }
        → (succeeded a.1 ≡ true) ↔ ((succeeds e.1 ≡ true) × (pings n ≡ none))
        → ((b : Bool) (us : List TargetHealth) (s' : AsyncDatabase)
            → Reports ns b us s' (rest b us s'))
        → Reports (n ∷ ns) ready ts s (next_target n ready ts a rest)
  Reports-target n ns ready ts s (s', r) rest c st iff ih =
      let x = reported n r in
      let (us, e, told) = ih (ready && succeeded r) (ts ++ x ∷ []) s' in
      (
        x ∷ us,
        rw (c, next_target)
            (e
              ∙ same_report _ (ready && all_healthy (x ∷ us)) _ (ts ++ x ∷ us)
                  (and_assoc ready (succeeded r) (all_healthy us)
                    ∙ ap (λ h. ready && (h && all_healthy us)) (healthy r))
                  (append_assoc ts (x ∷ []) us)),
        (
          named r,
          subst
              (λ h. (h ≡ true) ↔ (
                (succeeds (primary_engine scheme create now pings n s).1 ≡ true)
                × (pings n ≡ none)))
              (healthy r) iff,
          subst (λ q. Told scheme create now pings ns q us) st told,
        ),
      )
    where
      healthy : (q : Result Raised (Unit {0})) → succeeded q ≡ (reported n q).healthy
      healthy (ok u) = refl
      healthy (err e) = refl

      named : (q : Result Raised (Unit {0})) → (reported n q).key ≡ n <> ".primary"
      named (ok u) = refl
      named (err e) = refl

  health_over-Reports :
      (ns : List String) (ready : Bool) (ts : List TargetHealth) (s : AsyncDatabase)
      → Reports ns ready ts s (health_over sanitize scheme create now pings ns ready ts s)
  unfolding health_over
  health_over-Reports [] ready ts s = (
    [],
    same_report ready (ready && true) ts (ts ++ []) (and_true ready) (sym (append-nil ts)),
    refl,
  )
  health_over-Reports (n ∷ ns) ready ts s =
      let (state, iff) = reach-tells n s in
      Reports-target n ns ready ts s (reach sanitize scheme create now pings true n s)
        (λ b us s'. health_over sanitize scheme create now pings ns b us s') (reach-caught n s)
        state iff (λ b us s'. health_over-Reports ns b us s')

  -- Where no cancellation arrives, the health check never raises: it reports every required database once,
  -- in the order of the configuration, whatever fails, as healthy exactly if the registry gives an engine
  -- for its primary and the ping of it does not fail, and it is ready exactly if all of them are healthy;
  -- and `require_ready` then succeeds exactly if all of them are healthy.
  pub require_ready_iff :
      (s : AsyncDatabase)
      → (ts : List TargetHealth) × ((health sanitize scheme create now pings s).1
          ≡ ok (record { live = true; ready = all_healthy ts; targets = ts }))
        × Told scheme create now pings (required_names s.config.databases) s ts
        × (((require_ready sanitize scheme create now pings s).1 ≡ ok tt) ↔ (all_healthy ts ≡ true))
  unfolding health require_ready
  require_ready_iff s =
      let (ts, e, k) = health_over-Reports (required_names s.config.databases) true [] s in
      (ts, e, k, by_report (health sanitize scheme create now pings s) e)
    where
      by_report :
          (a : AsyncDatabase × Result Raised HealthReport) {b : Bool} {us : List TargetHealth}
          → a.1 ≡ report b us
          → ((demand a).1 ≡ ok tt) ↔ (b ≡ true)
      by_report (s', err x) e = cc
      by_report (s', ok rep) e = ground arith
