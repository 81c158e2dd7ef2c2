-- ===== src/SysDb/Outcome/Completion.antt =====
-- Recording the outcome of a workflow against cancellation (`#recordWorkflowOutcome`).
use mathlib.Core.Option
use dbos_transact_ts.Common.{
  ℕ, String, Bool, false, Option, none, some, List, ◌≡◌, ◌≢◌, refl, if◌then◌else◌, arith, changed,
}
use dbos_transact_ts.SysDb.Schema.{Status, WorkflowStatus, cancelled}
use dbos_transact_ts.SysDb.Rows.{find_row, find_row-update, find_row-id}
use dbos_transact_ts.SysDb.Result.{ok, err, workflow_cancelled}
use dbos_transact_ts.SysDb.Outcome.{
  Update, Where, set_clause, where_clause, truthy, update_workflow_status, record_workflow_outcome,
  get_workflow_status_value, unless_cancelled, outcome_update,
}

-- An update of one workflow, seen at any key.
pub find_row-update_workflow_status :
    (now : ℕ) (id : String) (s : Status) (u : Update) (w : Where) (throws : Bool) (k : String)
    (t : List WorkflowStatus)
    → find_row k (update_workflow_status now id s u w throws t).1
      ≡ Option.map (changed (where_clause id w) (set_clause now s u)) (find_row k t)
unfolding update_workflow_status
find_row-update_workflow_status now id s u w throws k t =
    find_row-update k (where_clause id w) (set_clause now s u) (λ r. refl) t

pub find_row-record_workflow_outcome :
    (now : ℕ) (id : String) (s : Status) (output error_text : Option String) (k : String)
    (t : List WorkflowStatus)
    → find_row k (record_workflow_outcome now id s output error_text t).1
      ≡ Option.map
          (changed
            (where_clause id unless_cancelled)
            (set_clause now s (outcome_update output error_text)))
          (find_row k t)
unfolding record_workflow_outcome
find_row-record_workflow_outcome now id s output error_text k t =
    find_row-update_workflow_status now id s (outcome_update output error_text) unless_cancelled
      false k t

-- The row that a completed workflow is left with.
abbrev pub completed : ℕ → Status → Option String → Option String → WorkflowStatus → WorkflowStatus
completed now s output error_text r = record r {
  status = s;
  updated_at = now;
  completed_at = some now;
  deduplication_id = none;
  output = if truthy output then output else r.output;
  error = if truthy error_text then error_text else r.error;
}

module _ (now : ℕ) (id : String) (s : Status) (output error_text : Option String)
    (t : List WorkflowStatus) (r : WorkflowStatus) (found : find_row id t ≡ some r) where
  -- A cancelled workflow cannot complete: the caller gets the cancellation, and its row stays.
  pub record_workflow_outcome_cancelled :
      r.status ≡ cancelled
      → (find_row id (record_workflow_outcome now id s output error_text t).1 ≡ some r)
        × ((record_workflow_outcome now id s output error_text t).0 ≡ err (workflow_cancelled id))
  unfolding record_workflow_outcome get_workflow_status_value where_clause
  record_workflow_outcome_cancelled h =
      ground (arith, found, find_row-record_workflow_outcome now id s output error_text id t)

  -- Any other workflow gets the outcome, if that is not itself a cancellation; it loses its
  -- deduplication ID and is completed now.
  pub record_workflow_outcome_completes :
      r.status ≢ cancelled
      → s ≢ cancelled
      → (find_row id (record_workflow_outcome now id s output error_text t).1
          ≡ some (completed now s output error_text r))
        × ((record_workflow_outcome now id s output error_text t).0 ≡ ok tt)
  unfolding record_workflow_outcome get_workflow_status_value where_clause set_clause
  record_workflow_outcome_completes h k = ground (
    arith,
    found,
    find_row-id id t r found,
    find_row-record_workflow_outcome now id s output error_text id t,
  )
