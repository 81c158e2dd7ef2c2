-- ===== src/SysDb/Outcome.antt =====
-- Status changes of one workflow: `updateWorkflowStatus`, `getWorkflowStatusValue`,
-- `#recordWorkflowOutcome` and its two callers, `setWorkflowStatus`, `#checkIfCanceled`.
pub mod Completion
use mathlib.Core.Option
use dbos_transact_ts.Common.{
  ℕ, String, Bool, true, false, not, ◌&&◌, Option, none, some, List, same, if◌then◌else◌, or_else,
  is_some, update, count, ◌==◌,
}
use dbos_transact_ts.SysDb.Schema.{Status, WorkflowStatus, cancelled, success, error, status_eq}
use dbos_transact_ts.SysDb.Rows.{has_id, find_row}
use dbos_transact_ts.SysDb.Result.{Result, ok, err, workflow_cancelled, workflow_conflict}

-- `options.update`; a text of `none` is a field that is absent or null.
pub record Update : Type 0 where
  pub output : Option String
  pub error : Option String
  pub reset_recovery_attempts : Bool
  pub queue_name : Option (Option String)
  pub reset_deadline : Bool
  pub reset_deduplication_id : Bool
  pub reset_started_at_epoch_ms : Bool
  pub executor_id : Option String
  pub reset_name_to : Option String
  pub set_completed_at : Bool
  pub clear_completed_at : Bool

-- `options.where`
pub record Where : Type 0 where
  pub status : Option Status
  pub not_status : Option Status

abbrev pub no_update : Update
no_update = record {
  output = none;
  error = none;
  reset_recovery_attempts = false;
  queue_name = none;
  reset_deadline = false;
  reset_deduplication_id = false;
  reset_started_at_epoch_ms = false;
  executor_id = none;
  reset_name_to = none;
  set_completed_at = false;
  clear_completed_at = false;
}

abbrev pub anywhere : Where
anywhere = record { status = none; not_status = none }

-- `if (update.output)`: a text that is neither absent, null nor empty.
abbrev pub truthy : Option String → Bool
truthy none = false
truthy (some s) = not (same s "")

-- The `SET` clause, as it is built up from the options.
unfoldable pub set_clause : ℕ → Status → Update → WorkflowStatus → WorkflowStatus
set_clause now status u r = record r {
  status = status;
  updated_at = now;
  output = if truthy u.output then u.output else r.output;
  error = if truthy u.error then u.error else r.error;
  recovery_attempts = if u.reset_recovery_attempts then 0 else r.recovery_attempts;
  workflow_deadline_epoch_ms = if u.reset_deadline then none else r.workflow_deadline_epoch_ms;
  queue_name = or_else u.queue_name r.queue_name;
  deduplication_id = if u.reset_deduplication_id then none else r.deduplication_id;
  started_at_epoch_ms = if u.reset_started_at_epoch_ms then none else r.started_at_epoch_ms;
  executor_id = if is_some u.executor_id then u.executor_id else r.executor_id;
  name = or_else u.reset_name_to r.name;
  completed_at =
      if u.set_completed_at
      then some now
      else (if u.clear_completed_at then none else r.completed_at);
}

-- The `WHERE` clause.
unfoldable pub where_clause : String → Where → WorkflowStatus → Bool
where_clause id w r =
    has_id id r
    && or_else (Option.map (λ s. status_eq r.status s) w.status) true
    && or_else (Option.map (λ s. not (status_eq r.status s)) w.not_status) true

-- `throwOnFailure` asks that the statement changed exactly one row.
unfoldable pub update_workflow_status :
    ℕ
    → String
    → Status
    → Update
    → Where
    → Bool
    → List WorkflowStatus
    → Result (Unit {0}) × List WorkflowStatus
unfolding set_clause where_clause
update_workflow_status now id status u w throw_on_failure t =
    let t' = update (where_clause id w) (set_clause now status u) t in
    (
      if throw_on_failure && not (count (where_clause id w) t == 1)
          then err (workflow_conflict id)
          else ok tt,
      t',
    )

unfoldable pub get_workflow_status_value : String → List WorkflowStatus → Option Status
unfolding find_row
get_workflow_status_value id t = Option.map (λ r. r.status) (find_row id t)

abbrev pub is_cancelled : Option Status → Bool
is_cancelled none = false
is_cancelled (some s) = status_eq s cancelled

-- `{ ...outcome, resetDeduplicationID: true, setCompletedAt: true }`
abbrev pub outcome_update : Option String → Option String → Update
outcome_update output error_text = record no_update {
  output = output;
  error = error_text;
  reset_deduplication_id = true;
  set_completed_at = true;
}

-- `{ notStatus: CANCELLED }`
abbrev pub unless_cancelled : Where
unless_cancelled = record anywhere { not_status = some cancelled }

-- The transaction commits also when the workflow turns out to be cancelled.
unfoldable pub record_workflow_outcome :
    ℕ
    → String
    → Status
    → Option String
    → Option String
    → List WorkflowStatus
    → Result (Unit {0}) × List WorkflowStatus
record_workflow_outcome now id status output error_text t =
    let t' =
      (update_workflow_status now id status (outcome_update output error_text) unless_cancelled
        false t).1 in
    (
      if is_cancelled (get_workflow_status_value id t') then err (workflow_cancelled id) else ok tt,
      t',
    )

unfoldable pub record_workflow_output :
    ℕ → String → Option String → List WorkflowStatus → Result (Unit {0}) × List WorkflowStatus
unfolding record_workflow_outcome
record_workflow_output now id output t = record_workflow_outcome now id success output none t

unfoldable pub record_workflow_error :
    ℕ → String → Option String → List WorkflowStatus → Result (Unit {0}) × List WorkflowStatus
unfolding record_workflow_outcome
record_workflow_error now id error_text t = record_workflow_outcome now id error none error_text t

unfoldable pub set_workflow_status :
    ℕ
    → String
    → Status
    → Bool
    → Option String
    → List WorkflowStatus
    → Result (Unit {0}) × List WorkflowStatus
unfolding update_workflow_status
set_workflow_status now id status reset_recovery_attempts update_name t =
    update_workflow_status now id status
      (record no_update {
        reset_recovery_attempts = reset_recovery_attempts;
        reset_name_to = update_name;
      })
      anywhere true t

unfoldable pub check_if_canceled : String → List WorkflowStatus → Result (Unit {0})
unfolding get_workflow_status_value
check_if_canceled id t =
    if is_cancelled (get_workflow_status_value id t) then err (workflow_cancelled id) else ok tt
