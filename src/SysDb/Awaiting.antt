-- ===== src/SysDb/Awaiting.antt =====
-- Waiting for other workflows: `awaitWorkflowResult`, `awaitFirstWorkflowId`, `awaitWorkflowIds`.
pub mod Results
use mathlib.Core.Option
use dbos_transact_ts.Common.{
  ℕ, ◌+◌, ◌*◌, String, Bool, true, false, not, ◌&&◌, Option, none, some, List, [], ◌∷◌, map, any_of,
  same, first, select, if◌then◌else◌,
}
use dbos_transact_ts.SysDb.Schema.{
  Db, WorkflowStatus, Status, success, error, cancelled, max_recovery_attempts_exceeded, pending,
  enqueued, delayed, is_workflow_active,
}
use dbos_transact_ts.SysDb.Rows.{find_row}
use dbos_transact_ts.SysDb.Result.{Result, ok, err}
use dbos_transact_ts.SysDb.Sleep.{Clock, durable_sleep}
use dbos_transact_ts.SysDb.Polling.{Round, poll, check_caller}

-- `SystemDatabaseStoredResult`
pub data StoredResult : Type 0 where
  returned : Option String → Option String → StoredResult
  failed : Option String → Option String → StoredResult
  was_cancelled : StoredResult
  exceeded_attempts : StoredResult

abbrev pub stored_result : WorkflowStatus → Option StoredResult
stored_result r = elim r.status [
  | success ↦ some (returned r.output r.serialization)
  | error ↦ some (failed r.error r.serialization)
  | cancelled ↦ some was_cancelled
  | max_recovery_attempts_exceeded ↦ some exceeded_attempts
  | pending ↦ none
  | enqueued ↦ none
  | delayed ↦ none
]

abbrev pub result_of : Option WorkflowStatus → Option StoredResult
result_of none = none
result_of (some r) = stored_result r

unfoldable pub find_result : String → Db → Option StoredResult
unfolding find_row
find_result id db = result_of (find_row id db.workflow_status)

-- Who waits: nobody, a workflow without a timer, or a workflow and the number of its timer.
pub record Waiter : Type 0 where
  pub caller : Option String
  pub timer : Option ℕ

-- `finishTime`; without a timeout there is none, which is zero here.
unfoldable pub finish_time : String → Clock → Waiter → Option ℕ → Db → Result ℕ × Db
unfolding durable_sleep
finish_time executor clock w none db = (ok 0, db)
finish_time executor clock w (some seconds) db = elim w.caller [
  | none ↦ (ok (clock.asked + seconds * 1000), db)
  | some id ↦ elim w.timer [
    | none ↦ (ok (clock.asked + seconds * 1000), db)
    | some fn ↦ durable_sleep executor clock id fn (seconds * 1000) db
  ]
]

abbrev pub await_from :
    Waiter
    → (Db → Option StoredResult)
    → List Round
    → Result ℕ × Db
    → Option (Result (Option StoredResult) × Db)
await_from w ready rounds (err e, db) = some (err e, db)
await_from w ready rounds (ok finish, db) = poll w.caller ready finish rounds db

-- The inner `none` is a wait that timed out.
unfoldable pub await_workflow_result :
    String
    → Clock
    → Waiter
    → String
    → Option ℕ
    → List Round
    → Db
    → Option (Result (Option StoredResult) × Db)
unfolding finish_time poll find_result
await_workflow_result executor clock w id timeout_seconds rounds db =
    await_from w (find_result id) rounds (finish_time executor clock w timeout_seconds db)

-- `status NOT IN ('PENDING', 'ENQUEUED', 'DELAYED')`
abbrev pub is_done : WorkflowStatus → Bool
is_done r = not (is_workflow_active r.status)

-- `WHERE workflow_uuid IN (...) AND status NOT IN (...)`
abbrev pub is_done_among : List String → WorkflowStatus → Bool
is_done_among ids r = any_of ids r.workflow_uuid && is_done r

-- There is no deadline.
unfoldable pub await_first_workflow_id :
    Option String → List String → List Round → Db → Option (Result (Option String) × Db)
unfolding poll
await_first_workflow_id caller ids rounds db =
    poll caller
      (λ d. Option.map (λ r. r.workflow_uuid) (first (is_done_among ids) d.workflow_status)) 0
      rounds db

-- `remainingWorkflowIds.delete`
abbrev pub without : List String → List String → List String
without gone ids = select (λ id. not (any_of gone id)) ids

abbrev pub done_among : List String → Db → List String
done_among ids db = map (λ r. r.workflow_uuid) (select (is_done_among ids) db.workflow_status)

unfoldable pub await_workflow_ids :
    Option String → List String → List Round → Db → Option (Result (Unit {0}) × Db)
unfolding check_caller
await_workflow_ids caller [] rounds db = some (ok tt, db)
await_workflow_ids caller (x ∷ xs) [] db = none
await_workflow_ids caller (x ∷ xs) (r ∷ rs) db =
    let db' = r.others db in
    let rest = await_workflow_ids caller (without (done_among (x ∷ xs) db') (x ∷ xs)) rs db' in
    elim (check_caller caller db') [ err e ↦ some (err e, db') | ok _ ↦ rest ]
