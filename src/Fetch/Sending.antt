-- ===== src/Fetch/Sending.antt =====
-- What the methods of a connection scope send.
use dbkit_sql.Prelude.{
  ◌≡◌, ◌≢◌, subst, refl, sym, ap, ◌∙◌, String, Option, none, some, Bool, true, false, List, [], ◌∷◌,
  ◌++◌, not, map, Result, ok, err, All, ◌⊎◌, inl, inr, Bool-cases, if◌then◌else◌,
}
use mathlib.Core.List.{append-nil, append_assoc}
use dbkit_sql.Prelude.Dict.{Dict}
use dbkit_sql.Errors.Classify.{Raised, database}
use dbkit_sql.Query.{Statement, QueryArgument, coerce_statement, as_query}
use dbkit_sql.Fetch.{
  Sent, set_config, runs, ConnectionScope, is_setting_name, codes, Logged, then_log, answered,
  set_all, apply_local_settings, settings_of, send, Failure, run_method, bad_setting,
}

abbrev IsValid : String × String → Type 0
IsValid p = is_setting_name (codes p.0) ≡ true

abbrev sets : Dict String String → List Sent
sets ss = map (λ (p : String × String). set_config p.0 p.1) ss

-- A setting that has an allowed name and is accepted.
abbrev pub IsAccepted : (String → Option Raised) → String × String → Type 0
IsAccepted answers p = IsValid p × (answers p.0 ≡ none)

-- The first setting that is not set, and what was sent: the settings before it, and itself if its name is
-- allowed and the server's answer is an error.
abbrev pub StopsAt : (String → Option Raised) → Dict String String → List Sent → Type 0
StopsAt answers ss log =
    (done rest : Dict String String) × (p : String × String) × (ss ≡ done ++ p ∷ rest)
    × All (IsAccepted answers) done
    × (((is_setting_name (codes p.0) ≡ false) × (log ≡ sets done))
        ⊎ (IsValid p × (answers p.0 ≢ none) × (log ≡ sets (done ++ p ∷ []))))

-- What `set_all` did with these settings, after what was sent before.
abbrev Sets : (String → Option Raised) → Dict String String → List Sent → Logged (Unit {0}) → Type 0
Sets answers ss before (out, ok u) = All (IsAccepted answers) ss × (out ≡ before ++ sets ss)
Sets answers ss before (out, err e) =
    (log : List Sent) × (out ≡ before ++ log) × StopsAt answers ss log

set_all-Sets :
    (answers : String → Option Raised) (ss : Dict String String) (before : List Sent)
    → Sets answers ss before (set_all answers ss before)
unfolding set_all
set_all-Sets answers [] before = (tt, sym (append-nil before))
set_all-Sets answers ((name, value) ∷ ss) before =
    elim (Bool-cases (is_setting_name (codes name))) [
      | inl good ↦
          sent good (answers name) refl (λ l. set_all answers ss l)
            (set_all-Sets answers ss (before ++ set_config name value ∷ []))
      | inr bad ↦
          rw bad ([], sym (append-nil before), ([], ss, (name, value), refl, tt, inl (bad, refl)))
    ]
  where
    step : Option Raised → (List Sent → Logged (Unit {0})) → Logged (Unit {0})
    step o later =
        if not (is_setting_name (codes name))
        then (before, err (database bad_setting))
        else then_log (before ++ set_config name value ∷ [], answered o tt) (λ l u. later l)

    sent :
        is_setting_name (codes name) ≡ true
        → (o : Option Raised) → answers name ≡ o
        → (later : List Sent → Logged (Unit {0}))
        → Sets answers ss
            (before ++ set_config name value ∷ [])
            (later (before ++ set_config name value ∷ []))
        → Sets answers ((name, value) ∷ ss) before (step o later)
    sent good (some e) a later h = rw good (
      set_config name value ∷ [],
      refl,
      ([], ss, (name, value), refl, tt, inr (good, (λ n. cc (a, n)), refl)),
    )
    sent good none a later h = rw good (extended a (later (before ++ set_config name value ∷ [])) h)
      where
        extended :
            answers name ≡ none
            → (r : Logged (Unit {0})) → Sets answers ss (before ++ set_config name value ∷ []) r
            → Sets answers ((name, value) ∷ ss) before r
        extended a (out, ok u) (all, g) =
            (((good, a), all), g ∙ append_assoc before (set_config name value ∷ []) (sets ss))
        extended a (out, err e) (log, g, (done, rest, p, split, all, stop)) = (
          set_config name value ∷ log,
          g ∙ append_assoc before (set_config name value ∷ []) log,
          (
            (name, value) ∷ done,
            rest,
            p,
            ap (◌∷◌ (name, value)) split,
            ((good, a), all),
            later_stop log done p stop,
          ),
        )
          where
            later_stop :
                (log : List Sent) (done : Dict String String) (p : String × String)
                → (((is_setting_name (codes p.0) ≡ false) × (log ≡ sets done))
                    ⊎ (IsValid p × (answers p.0 ≢ none) × (log ≡ sets (done ++ p ∷ []))))
                → ((is_setting_name (codes p.0) ≡ false)
                    × (set_config name value ∷ log ≡ sets ((name, value) ∷ done)))
                  ⊎ (IsValid p
                      × (answers p.0 ≢ none)
                      × (set_config name value ∷ log ≡ sets ((name, value) ∷ done ++ p ∷ [])))
            later_stop log done p (inl (b, l)) = inl (b, ap (◌∷◌ (set_config name value)) l)
            later_stop log done p (inr (b, n, l)) = inr (b, n, ap (◌∷◌ (set_config name value)) l)

-- The log of a call with these settings and this statement: without settings the statement alone; elsewhere
-- than on PostgreSQL nothing; else all settings, all of them set, and the statement, or what was sent up to
-- the first that is not set.
abbrev pub Sends :
    Bool → (String → Option Raised) → Option (Dict String String) → Statement → List Sent → Type 0
Sends is_postgres answers none st log = log ≡ runs st ∷ []
Sends is_postgres answers (some []) st log = log ≡ runs st ∷ []
Sends false answers (some (s ∷ ss)) st log = log ≡ []
Sends true answers (some (s ∷ ss)) st log =
    (All (IsAccepted answers) (s ∷ ss) × (log ≡ sets (s ∷ ss) ++ runs st ∷ []))
    ⊎ StopsAt answers (s ∷ ss) log

Sends-Sets :
    {R : Type 0} (answers : String → Option Raised) (s : String × String) (ss : Dict String String)
    (st : Statement) (rows : Result Raised R) (a : Logged (Unit {0}))
    → Sets answers (s ∷ ss) [] a
    → Sends true answers (some (s ∷ ss)) st (then_log a (λ log u. (log ++ runs st ∷ [], rows))).0
Sends-Sets answers s ss st rows (out, err e) (log, h, stop) =
    inr (subst (StopsAt answers (s ∷ ss)) (sym h) stop)
Sends-Sets answers s ss st rows (out, ok tt) (all, h) = inl (all, ap (λ l. l ++ runs st ∷ []) h)

send-Sends :
    {R : Type 0} (is_postgres : Bool) (answers : String → Option Raised) (rows : Result Raised R)
    (o : Option (Dict String String)) (st : Statement)
    → Sends is_postgres answers o st
        (then_log
          (apply_local_settings is_postgres answers o [])
          (λ log u. (log ++ runs st ∷ [], rows))).0
unfolding apply_local_settings
send-Sends p answers rows none st = refl
send-Sends true answers rows (some []) st = refl
send-Sends false answers rows (some []) st = refl
send-Sends true answers rows (some (s ∷ ss)) st =
    Sends-Sets answers s ss st rows (set_all answers (s ∷ ss) []) (set_all-Sets answers (s ∷ ss) [])
send-Sends false answers rows (some (s ∷ ss)) st = refl

abbrev pub MethodSends : Bool → (String → Option Raised) → QueryArgument → List Sent → Type 0
MethodSends p answers arg log = elim (coerce_statement arg) [
  | err e ↦ log ≡ []
  | ok st ↦ Sends p answers (settings_of (as_query arg)) st log
]

-- Whatever a method wants of the answer: an argument that is no statement sends nothing, and a query
-- without settings its statement alone. Elsewhere than on PostgreSQL, a query with settings sends nothing.
-- On PostgreSQL its settings are sent in their order, and after them the statement, if every name is of the
-- allowed form and no setting fails; else nothing is sent after the first setting that has no such name,
-- which is not sent itself, or that fails.
pub run_method-MethodSends :
    {R A B : Type 0} (sanitize : String → String) (scope : ConnectionScope)
    (answers : String → Option Raised) (answer : Result Raised R)
    (take : Result Raised R → Result Failure A) (finish : A → Result Raised B) (arg : QueryArgument)
    → MethodSends scope.is_postgres answers arg
        (run_method sanitize scope answers answer take finish arg).0
unfolding run_method send coerce_statement
run_method-MethodSends sanitize scope answers answer take finish arg = by_argument arg
  where
    by_argument :
        (arg : QueryArgument)
        → MethodSends scope.is_postgres answers arg
            (run_method sanitize scope answers answer take finish arg).0
    by_argument (QueryArgument.query q) =
        send-Sends scope.is_postgres answers answer q.settings q.statement
    by_argument (QueryArgument.statement s) = refl
    by_argument (QueryArgument.bare_string s) = refl
    by_argument QueryArgument.unsupported = refl
