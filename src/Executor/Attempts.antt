-- ===== src/Executor/Attempts.antt =====
-- How often a step is attempted, and which errors are retried.
use dbos_transact_ts.Common.{
  ℕ, zero, suc, ◌+◌, ◌≢◌, sym, ◌∙◌, Bool, true, false, Option, none, some, List, [], ◌∷◌, ◌++◌, ◌≡◌,
  refl, arith, String, All, All-append, length, length-append, or_else, Bool-cases, inl, inr,
}
use dbos_transact_ts.SysDb.Schema.{Db}
use dbos_transact_ts.SysDb.Result.{Result-cases}
use dbos_transact_ts.SysDb.Outcome.{check_if_canceled}
use dbos_transact_ts.SysDb.Retry.{Outcome, value, failure}
use dbos_transact_ts.Executor.{
  StepConfig, Ending, returned, thrown, max_step_retries, interrupted, Attempted, next_interval,
  pause, asked, ends, after_error, after_attempt, run_attempts, attempted_once, execute_step,
}

-- Errors that are retried.
abbrev pub AllRetried {ℓ} : {E : Type ℓ} → StepConfig E → List E → Type ℓ
AllRetried config es = All (λ e. asked config e ≡ value true) es

pause-ending {ℓ κ} :
    {E : Type ℓ} {A : Type κ} (left interval : ℕ) (r : Attempted E A)
    → (pause left interval r).ending ≡ r.ending
pause-ending zero interval r = refl
pause-ending (suc left) interval r = refl

module _ {ℓ κ} {E : Type ℓ} {A : Type κ} (id : String) (config : StepConfig E) where
  module _ {μ} (P : Attempted E A → Type μ)
      (stops : (en : Ending E A) (db : Db)
        → ((es : List E) → en ≢ max_step_retries es)
        → P (ends en db)) where
    after_error_goes :
        (o : Outcome E Bool) (e : E) (db : Db) (again : Attempted E A)
        → (o ≡ value true → P again)
        → P (after_error o e db again)
    after_error_goes (failure e') e db again more = stops (thrown e') db (λ es h. cc)
    after_error_goes (value false) e db again more = stops (thrown e) db (λ es h. cc)
    after_error_goes (value true) e db again more = more refl

    after_attempt_goes :
        (again : E → Db → Attempted E A) (x : Outcome E A × Db)
        → ((e : E) (db : Db) → asked config e ≡ value true → P (again e db))
        → P (after_attempt id config again x)
    after_attempt_goes again (value a, db) more = stops (returned a) db (λ es h. cc)
    after_attempt_goes again (failure e, db) more =
        after_error_goes (asked config e) e db (again e db) (more e db)

    -- One round of the loop.
    pub run_attempts_goes :
        (attempt : Option ℕ → Db → Outcome E A × Db) (left n interval : ℕ) (errors : List E)
        (db : Db)
        → ((e : E) (d : Db)
            → asked config e ≡ value true
            → P (
                pause left interval (
                  run_attempts id config attempt left
                    (n + 1)
                    (next_interval (or_else config.backoff_rate 2) interval)
                    (errors ++ e ∷ [])
                    d)))
        → P (run_attempts id config attempt (suc left) n interval errors db)
    unfolding run_attempts
    run_attempts_goes attempt left n interval errors db more =
        elim (Result-cases (check_if_canceled id db.workflow_status)) [
          | inl (u, fine) ↦
              rw (fine, run_attempts) (after_attempt_goes _ (attempt (some (n + 1)) db) more)
          | inr (e, refused) ↦ rw (refused, run_attempts) (stops (interrupted e) db (λ es h. cc))
        ]

  attempted_once_other :
      (x : Outcome E A × Db) (es : List E)
      → (attempted_once id config x).ending ≢ max_step_retries es
  attempted_once_other (value a, db) es h = cc
  attempted_once_other (failure e, db) es h = cc

  module _ (attempt : Option ℕ → Db → Outcome E A × Db) where
    -- What a loop that gives up has gone through.
    abbrev GaveUp : ℕ → List E → Attempted E A → Type (ℓ ⊔ κ)
    GaveUp left errors r =
        (es : List E)
        → r.ending ≡ max_step_retries es
        → (length es ≡ length errors + left) × AllRetried config es

    run_attempts-GaveUp :
        (left n interval : ℕ) (errors : List E) (db : Db)
        → AllRetried config errors
        → GaveUp left errors (run_attempts id config attempt left n interval errors db)
    unfolding run_attempts
    run_attempts-GaveUp zero n interval errors db so_far =
        λ es h. let same : es ≡ errors = cc in rw same (omega arith, so_far)
    run_attempts-GaveUp (suc left) n interval errors db so_far =
        run_attempts_goes (GaveUp (suc left) errors) (λ en d other es h. absurd (other es h))
          attempt left n interval errors db
          λ e d retried es h.
            let (counted, all) =
              run_attempts-GaveUp left (n + 1)
                (next_interval (or_else config.backoff_rate 2) interval) (errors ++ e ∷ []) d
                (All-append _ errors (e ∷ []) so_far (retried, tt)) es
                (sym (pause-ending left interval _) ∙ h) in
            (omega (arith, counted, length-append errors (e ∷ [])), all)

    -- A step that fails for the number of its attempts has failed as often as it may be attempted,
    -- each time with an error that is to be retried.
    pub execute_step-max_step_retries :
        (db : Db) (es : List E)
        → (execute_step id config attempt db).ending ≡ max_step_retries es
        → (length es ≡ or_else config.max_attempts 3) × AllRetried config es
    unfolding execute_step
    execute_step-max_step_retries db es h = elim (Bool-cases config.retries_allowed) [
      | inl on ↦
          let (counted, all) =
            run_attempts-GaveUp (or_else config.max_attempts 3) 0
              (or_else config.interval_seconds 1) [] db tt es (ground (arith, on, h)) in
          (omega (arith, counted), all)
      | inr off ↦ absurd (attempted_once_other (attempt none db) es (ground (arith, off, h)))
    ]
