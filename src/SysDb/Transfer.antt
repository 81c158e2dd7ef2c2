-- ===== src/SysDb/Transfer.antt =====
-- `exportWorkflow` and `importWorkflow`: the rows of a workflow, without its messages, leave one
-- database and enter another.
pub mod RoundTrip
use mathlib.Core.Option
use dbos_transact_ts.Common.{
  String, Bool, true, false, ◌&&◌, ◌==◌, Option, none, some, List, [], ◌∷◌, ◌++◌, same, first,
  select, is_some, if◌then◌else◌,
}
use dbos_transact_ts.SysDb.Schema.{
  Db, WorkflowStatus, OperationOutput, WorkflowEvent, WorkflowEventHistory, StreamEntry,
}
use dbos_transact_ts.SysDb.Rows.{find_row}
use dbos_transact_ts.SysDb.Result.{
  Result, ok, err, nonexistent_workflow, unique_violation, foreign_key_violation,
}
use dbos_transact_ts.SysDb.Manage.{clashes}
use dbos_transact_ts.SysDb.Family.{get_workflow_children}
use dbos_transact_ts.SysDb.Steps.{rollback}

pub record ExportedWorkflow : Type 0 where
  pub workflow_status : WorkflowStatus
  pub operation_outputs : List OperationOutput
  pub workflow_events : List WorkflowEvent
  pub workflow_events_history : List WorkflowEventHistory
  pub streams : List StreamEntry

-- The five `SELECT`s; `owner_xid` is left out.
unfoldable pub export_one : String → WorkflowStatus → Db → ExportedWorkflow
export_one id r db = record {
  workflow_status = record r { owner_xid = none };
  operation_outputs = select (λ o. same o.workflow_uuid id) db.operation_outputs;
  workflow_events = select (λ e. same e.workflow_uuid id) db.workflow_events;
  workflow_events_history = select (λ e. same e.workflow_uuid id) db.workflow_events_history;
  streams = select (λ s. same s.workflow_uuid id) db.streams;
}

unfoldable pub export_each : List String → Db → Result (List ExportedWorkflow)
unfolding export_one find_row
export_each [] db = ok []
export_each (id ∷ ids) db =
    let rest = export_each ids db in
    elim (find_row id db.workflow_status) [
      | none ↦ err (nonexistent_workflow id)
      | some r ↦ elim rest [ err e ↦ err e | ok ws ↦ ok (export_one id r db ∷ ws) ]
    ]

-- The search for children runs out of fuel only where it does in `getWorkflowChildren`.
unfoldable pub export_workflow : String → Bool → Db → Option (Result (List ExportedWorkflow))
unfolding export_each get_workflow_children
export_workflow id false db = some (export_each (id ∷ []) db)
export_workflow id true db =
    Option.map (λ children. export_each (id ∷ children) db)
      (get_workflow_children id db.workflow_status)

-- `INSERT` of one row after the other: the primary key, and the foreign key on the workflow.
unfoldable pub insert_each {ℓ} :
    {A : Type ℓ}
    → (A → A → Bool)
    → (A → String)
    → List WorkflowStatus
    → List A
    → List A
    → Result (List A)
unfolding find_row
insert_each same_key owner ws [] t = ok t
insert_each same_key owner ws (r ∷ rs) t =
    let rest = insert_each same_key owner ws rs (t ++ r ∷ []) in
    if is_some (first (same_key r) t)
    then err unique_violation
    else (if is_some (find_row (owner r) ws) then rest else err foreign_key_violation)

-- The primary keys.
abbrev pub same_output : OperationOutput → OperationOutput → Bool
same_output a b = same a.workflow_uuid b.workflow_uuid && a.function_id == b.function_id

abbrev pub same_event : WorkflowEvent → WorkflowEvent → Bool
same_event a b = same a.workflow_uuid b.workflow_uuid && same a.key b.key

abbrev pub same_history : WorkflowEventHistory → WorkflowEventHistory → Bool
same_history a b =
    same a.workflow_uuid b.workflow_uuid && a.function_id == b.function_id && same a.key b.key

abbrev pub same_entry : StreamEntry → StreamEntry → Bool
same_entry a b = same a.workflow_uuid b.workflow_uuid && same a.key b.key && a.offset == b.offset

-- The row of the workflow: its key, and the unique index on queue and deduplication ID.
unfoldable pub import_status : WorkflowStatus → List WorkflowStatus → Result (List WorkflowStatus)
unfolding find_row
import_status r t =
    if is_some (find_row r.workflow_uuid t)
    then err unique_violation
    else (if is_some (first (clashes r) t) then err unique_violation else ok (t ++ r ∷ []))

abbrev pub then_with {ℓ κ} : {A : Type ℓ} {B : Type κ} → Result A → (A → Result B) → Result B
then_with (err e) next = err e
then_with (ok a) next = next a

unfoldable pub import_one : ExportedWorkflow → Db → Result Db
unfolding import_status insert_each
import_one w db = then_with (import_status w.workflow_status db.workflow_status) λ ws.
    then_with
      (insert_each same_output (λ o. o.workflow_uuid) ws w.operation_outputs db.operation_outputs)
      λ outputs.
        then_with
          (insert_each same_event (λ e. e.workflow_uuid) ws w.workflow_events db.workflow_events)
          λ events.
            then_with
              (insert_each same_history (λ e. e.workflow_uuid) ws w.workflow_events_history
                db.workflow_events_history)
              λ history.
                then_with (insert_each same_entry (λ s. s.workflow_uuid) ws w.streams db.streams)
                  λ streams. ok (record db {
                    workflow_status = ws;
                    operation_outputs = outputs;
                    workflow_events = events;
                    workflow_events_history = history;
                    streams = streams;
                  })

unfoldable pub import_each : List ExportedWorkflow → Db → Result Db
unfolding import_one
import_each [] db = ok db
import_each (w ∷ ws) db = then_with (import_one w db) (import_each ws)

abbrev pub committed : Db → Result Db → Result (Unit {0}) × Db
committed db (err e) = (err e, db)
committed db (ok db') = (ok tt, db')

unfoldable pub import_workflow : List ExportedWorkflow → Db → Result (Unit {0}) × Db
unfolding import_each
import_workflow ws db = committed db (import_each ws db)
