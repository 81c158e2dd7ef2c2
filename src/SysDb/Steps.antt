-- ===== src/SysDb/Steps.antt =====
-- Checkpoints of the steps of a workflow (`operation_outputs`): `recordOperationResultInternal`,
-- `#getOperationResultAndThrowIfCancelled`, `#runAndRecordResult`, and `runTransactionalStep`, with
-- transactions that roll back when they throw.
pub mod Checkpoints
pub mod Replay
pub mod Effects
use dbos_transact_ts.Common.{
  ℕ, ◌+◌, String, Bool, true, false, not, ◌&&◌, Option, none, some, List, [], ◌∷◌, ◌++◌, same,
  same_column, column_is, if◌then◌else◌, is_some, update, first, ◌==◌, print, parse,
}
use Prim.Native.String.{◌++◌ as join}
use dbos_transact_ts.SysDb.Schema.{Db, OperationOutput, WorkflowStatus}
use dbos_transact_ts.SysDb.Rows.{has_id, find_row}
use dbos_transact_ts.SysDb.Result.{
  Result, ok, err, workflow_conflict, unexpected_step, foreign_key_violation, bad_request,
}
use dbos_transact_ts.SysDb.Outcome.{check_if_canceled}

-- The primary key of `operation_outputs`.
abbrev pub is_step : String → ℕ → OperationOutput → Bool
is_step id fn o = same o.workflow_uuid id && o.function_id == fn

unfoldable pub find_step : String → ℕ → List OperationOutput → Option OperationOutput
find_step id fn t = first (is_step id fn) t

-- `options` of `recordOperationResult`.
pub record StepOptions : Type 0 where
  pub child_workflow_id : Option String
  pub output : Option String
  pub error : Option String
  pub serialization : Option String

abbrev pub only_output : Option String → StepOptions
only_output output = record {
  child_workflow_id = none;
  output = output;
  error = none;
  serialization = none;
}

unfoldable pub new_step : String → ℕ → String → ℕ → ℕ → StepOptions → OperationOutput
new_step id fn name started ended o = record {
  workflow_uuid = id;
  function_id = fn;
  output = o.output;
  error = o.error;
  function_name = some name;
  child_workflow_id = o.child_workflow_id;
  started_at_epoch_ms = started;
  completed_at_epoch_ms = ended;
  serialization = o.serialization;
}

-- `executor_id IS DISTINCT FROM $1`
unfoldable pub claim_executor : String → String → List WorkflowStatus → List WorkflowStatus
claim_executor executor id t =
    update (λ r. has_id id r && not (column_is r.executor_id executor))
      (λ r. record r { executor_id = some executor }) t

-- The `INSERT ... ON CONFLICT DO UPDATE ... RETURNING completed_at_epoch_ms`: an existing checkpoint
-- stays as it is. A workflow that is not in the table breaks the foreign key.
unfoldable pub insert_step : OperationOutput → Db → Result (ℕ × Db)
unfolding find_step find_row
insert_step o db = elim (find_step o.workflow_uuid o.function_id db.operation_outputs) [
  | some old ↦ ok (old.completed_at_epoch_ms, db)
  | none ↦
      if is_some (find_row o.workflow_uuid db.workflow_status)
      then ok (
        o.completed_at_epoch_ms,
        record db { operation_outputs = db.operation_outputs ++ o ∷ [] },
      )
      else err foreign_key_violation
]

-- What follows the statement: whoever finds another time of completion than its own has lost.
abbrev pub settle : String → String → Bool → ℕ → Db → Result (ℕ × Db) → Result (Unit {0}) × Db
settle executor id check_conflict ended db (err e) = (err e, db)
settle executor id check_conflict ended db (ok (completed, db')) =
    if check_conflict && not (completed == ended) then (err (workflow_conflict id), db') else (
      ok tt,
      if completed == ended
          then record db' { workflow_status = claim_executor executor id db'.workflow_status }
          else db',
    )

unfoldable pub record_operation_result :
    String → String → ℕ → String → Bool → ℕ → ℕ → StepOptions → Db → Result (Unit {0}) × Db
unfolding insert_step new_step claim_executor
record_operation_result executor id fn name check_conflict started ended o db =
    settle executor id check_conflict ended db
      (insert_step (new_step id fn name started ended o) db)

unfoldable pub get_operation_result_and_throw_if_cancelled :
    String → ℕ → Db → Result (Option OperationOutput)
unfolding check_if_canceled find_step
get_operation_result_and_throw_if_cancelled id fn db =
    elim (check_if_canceled id db.workflow_status) [
      | err e ↦ err e
      | ok _ ↦ ok (find_step id fn db.operation_outputs)
    ]

-- `result.functionName !== functionName`
abbrev pub replay : String → ℕ → String → OperationOutput → Result (Option String)
replay id fn name o =
    if column_is o.function_name name
    then ok o.output
    else err (unexpected_step id fn name o.function_name)

abbrev pub then_return {ℓ} : {A : Type ℓ} → A → Result (Unit {0}) × Db → Result A × Db
then_return a (ok _, db) = (ok a, db)
then_return a (err e, db) = (err e, db)

-- Not a transaction: what `func` and the checkpoint have done stays when a later part throws.
abbrev pub run_new_step :
    String → ℕ → ℕ → String → ℕ → String → Result (Option String) × Db → Result (Option String) × Db
run_new_step executor started ended id fn name (err e, db) = (err e, db)
run_new_step executor started ended id fn name (ok output, db) =
    then_return output
      (record_operation_result executor id fn name true started ended (only_output output) db)

-- `func` is what the caller passes: it acts on the database and yields an output or throws.
unfoldable pub run_and_record_result :
    String
    → ℕ
    → ℕ
    → String
    → String
    → ℕ
    → (Db → Result (Option String) × Db)
    → Db
    → Result (Option String) × Db
unfolding get_operation_result_and_throw_if_cancelled record_operation_result
run_and_record_result executor started ended name id fn func db =
    elim (get_operation_result_and_throw_if_cancelled id fn db) [
      | err e ↦ (err e, db)
      | ok (some o) ↦ (replay id fn name o, db)
      | ok none ↦ run_new_step executor started ended id fn name (func db)
    ]

-- The existing checkpoint, or `none` after the step has run.
unfoldable pub run_transactional_step :
    String
    → ℕ
    → ℕ
    → String
    → ℕ
    → String
    → (Db → Result (Option String) × Db)
    → Db
    → Result (Option OperationOutput) × Db
unfolding get_operation_result_and_throw_if_cancelled record_operation_result
run_transactional_step executor started ended id fn name callback db =
    elim (get_operation_result_and_throw_if_cancelled id fn db) [
      | err e ↦ (err e, db)
      | ok (some o) ↦ (ok (some o), db)
      | ok none ↦
          let (res, db') = run_new_step executor started ended id fn name (callback db) in
          elim res [ err e ↦ (err e, db) | ok _ ↦ (ok none, db') ]
    ]

-- `catch { ROLLBACK; throw }`: what a transaction that throws did is undone.
abbrev pub rollback {ℓ} : {A : Type ℓ} → Db → Result A × Db → Result A × Db
rollback db (err e, db') = (err e, db)
rollback db (ok a, db') = (ok a, db')

-- A step whose function returns `undefined`.
abbrev pub no_output : Result (Unit {0}) × Db → Result (Option String) × Db
no_output (ok _, db) = (ok none, db)
no_output (err e, db) = (err e, db)
