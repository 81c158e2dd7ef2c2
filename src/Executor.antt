-- ===== src/Executor.antt =====
-- The attempts of a step: the loop of `callStepFunction` (src/dbos-executor.ts).
pub mod Attempts
pub mod Backoff
use dbos_transact_ts.Common.{
  ℕ, zero, suc, ◌+◌, ◌*◌, Bool, true, false, Option, none, some, List, [], ◌∷◌, ◌++◌, String, ltb,
  or_else, if◌then◌else◌,
}
use dbos_transact_ts.SysDb.Schema.{Db}
use dbos_transact_ts.SysDb.Result.{Result, ok, err, Fault}
use dbos_transact_ts.SysDb.Outcome.{check_if_canceled}
use dbos_transact_ts.SysDb.Retry.{Outcome, value, failure}

-- `maxRetryIntervalSec`
abbrev pub max_retry_interval_sec : ℕ
max_retry_interval_sec = 3600

-- `StepConfig` of src/step.ts; the intervals and the rate are whole numbers.
pub record StepConfig {ℓ} (E : Type ℓ) : Type ℓ where
  pub retries_allowed : Bool
  pub interval_seconds : Option ℕ
  pub max_attempts : Option ℕ
  pub backoff_rate : Option ℕ
  pub should_retry : Option (E → Outcome E Bool)

-- What the attempts end with: a value, an error that is not retried, `DBOSMaxStepRetriesError`, or a
-- fault of the database, such as the cancellation of the workflow.
pub data Ending {ℓ κ} (E : Type ℓ) (A : Type κ) : Type (ℓ ⊔ κ) where
  returned : A → Ending E A
  thrown : E → Ending E A
  max_step_retries : List E → Ending E A
  interrupted : Fault → Ending E A

-- The ending, the tables then, and the times slept in milliseconds.
pub record Attempted {ℓ κ} (E : Type ℓ) (A : Type κ) : Type (ℓ ⊔ κ) where
  pub ending : Ending E A
  pub tables : Db
  pub sleeps : List ℕ

abbrev pub next_interval : ℕ → ℕ → ℕ
next_interval rate interval =
    if ltb (interval * rate) max_retry_interval_sec then interval * rate else max_retry_interval_sec

-- Only an attempt that is not the last one sleeps.
abbrev pub pause {ℓ κ} : {E : Type ℓ} {A : Type κ} → ℕ → ℕ → Attempted E A → Attempted E A
pause zero interval r = r
pause (suc left) interval r = record r { sleeps = interval * 1000 ∷ r.sleeps }

-- `shouldRetry`, which may throw; without it every error is retried.
abbrev pub asked {ℓ} : {E : Type ℓ} → StepConfig E → E → Outcome E Bool
asked config e = elim config.should_retry [ none ↦ value true | some f ↦ f e ]

abbrev pub ends {ℓ κ} : {E : Type ℓ} {A : Type κ} → Ending E A → Db → Attempted E A
ends ending db = record { ending = ending; tables = db; sleeps = [] }

-- What follows an attempt that threw.
abbrev pub after_error {ℓ κ} :
    {E : Type ℓ} {A : Type κ} → Outcome E Bool → E → Db → Attempted E A → Attempted E A
after_error (failure e') e db again = ends (thrown e') db
after_error (value false) e db again = ends (thrown e) db
after_error (value true) e db again = again

module _ {ℓ κ} {E : Type ℓ} {A : Type κ} (id : String) (config : StepConfig E) where
  abbrev pub after_attempt : (E → Db → Attempted E A) → Outcome E A × Db → Attempted E A
  after_attempt again (value a, db) = ends (returned a) db
  after_attempt again (failure e, db) = after_error (asked config e) e db (again e db)

  -- The loop, with `left` attempts left after the first `n`. `attempt` acts on the tables, as others do
  -- meanwhile.
  unfoldable pub run_attempts :
      (Option ℕ → Db → Outcome E A × Db) → ℕ → ℕ → ℕ → List E → Db → Attempted E A
  unfolding check_if_canceled
  run_attempts attempt zero n interval errors db = ends (max_step_retries errors) db
  run_attempts attempt (suc left) n interval errors db =
      elim (check_if_canceled id db.workflow_status) [
        | err e ↦ ends (interrupted e) db
        | ok _ ↦
            after_attempt
              (λ e d. pause left interval (
                run_attempts attempt left (n + 1)
                  (next_interval (or_else config.backoff_rate 2) interval) (errors ++ e ∷ []) d))
              (attempt (some (n + 1)) db)
      ]

  abbrev pub attempted_once : Outcome E A × Db → Attempted E A
  attempted_once (value a, db) = ends (returned a) db
  attempted_once (failure e, db) = ends (thrown e) db

  unfoldable pub execute_step : (Option ℕ → Db → Outcome E A × Db) → Db → Attempted E A
  unfolding run_attempts
  execute_step attempt db =
      if config.retries_allowed
      then run_attempts attempt (or_else config.max_attempts 3) 0
          (or_else config.interval_seconds 1) [] db
      else attempted_once (attempt none db)
