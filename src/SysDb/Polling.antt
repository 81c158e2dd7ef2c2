-- ===== src/SysDb/Polling.antt =====
-- The polling loops of `recv`, `getEvent`, `awaitWorkflowResult` and `awaitFirstWorkflowId`. Between
-- two looks at the tables the other transactions run: a loop is given its rounds, each with what
-- the others do before it and the clock that it reads. A loop whose rounds are used up is `none`.
pub mod Ending
use dbos_transact_ts.Common.{
  ℕ, String, Bool, true, false, ◌&&◌, Option, none, some, List, [], ◌∷◌, if◌then◌else◌, ltb,
  column_is, ◌+◌, ◌==◌,
}
use dbos_transact_ts.SysDb.Schema.{Db, OperationOutput}
use dbos_transact_ts.SysDb.Result.{Result, ok, err, unexpected_step}
use dbos_transact_ts.SysDb.Outcome.{check_if_canceled}
use dbos_transact_ts.SysDb.Steps.{StepOptions, only_output}
use dbos_transact_ts.SysDb.Sleep.{Clock, durable_sleep}

pub record Round : Type 0 where
  pub others : Db → Db
  pub now : ℕ

-- `finishTime && ct > finishTime`
abbrev pub times_up : ℕ → ℕ → Bool
times_up finish now = ltb 0 finish && ltb finish now

-- `if (callerID) await this.#checkIfCanceledLimited(callerID)`
unfoldable pub check_caller : Option String → Db → Result (Unit {0})
check_caller none db = ok tt
check_caller (some id) db = check_if_canceled id db.workflow_status

-- `ready` is the look at the tables: what it finds, if anything.
unfoldable pub poll {ℓ} :
    {A : Type ℓ}
    → Option String
    → (Db → Option A)
    → ℕ
    → List Round
    → Db
    → Option (Result (Option A) × Db)
unfolding check_caller check_if_canceled
poll caller ready finish [] db = none
poll caller ready finish (r ∷ rs) db =
    let db' = r.others db in
    let rest = poll caller ready finish rs db' in
    elim (check_caller caller db') [
      | err e ↦ some (err e, db')
      | ok _ ↦ elim (ready db') [
        | some a ↦ some (ok (some a), db')
        | none ↦ if times_up finish r.now then some (ok none, db') else rest
      ]
    ]

-- `{ serializedValue, serialization }`
pub record Received : Type 0 where
  pub serialized_value : Option String
  pub serialization : Option String

abbrev pub received_options : Received → StepOptions
received_options r = record (only_output r.serialized_value) { serialization = r.serialization }

-- A step that has run: its checkpoint's value, if it is of the same function.
abbrev pub replay_value : String → ℕ → String → OperationOutput → Result Received
replay_value id fn name o =
    if column_is o.function_name name
    then ok (record { serialized_value = o.output; serialization = o.serialization })
    else err (unexpected_step id fn name o.function_name)

-- The deadline: a checkpoint of its own, unless there is no time to wait.
unfoldable pub deadline : String → Clock → String → ℕ → ℕ → Db → Result ℕ × Db
unfolding durable_sleep
deadline executor clock id timeout_fn timeout_ms db =
    if timeout_ms == 0
    then (ok (clock.asked + timeout_ms), db)
    else durable_sleep executor clock id timeout_fn timeout_ms db

-- Who runs the step, when it starts and ends, and what other transactions do while it waits: the
-- rounds of the loop, before the check for a cancellation, and before the last transaction.
pub record Course : Type 0 where
  pub executor : String
  pub clock : Clock
  pub started : ℕ
  pub ended : ℕ
  pub rounds : List Round
  pub before_check : Db → Db
  pub before_commit : Db → Db
