-- ===== src/SysDb/Init.antt =====
-- `initWorkflowStatus` and `insertWorkflowStatus`: the row of a workflow that starts, is recovered
-- or is dequeued. The warning about another queue name is left out.
pub mod Admission
use dbos_transact_ts.Common.{
  ℕ, zero, suc, ◌+◌, String, Bool, true, false, not, ◌&&◌, ◌||◌, Option, none, some, List, [], ◌∷◌,
  ◌++◌, same, same_column, if◌then◌else◌, or_else, is_some, update, first, ltb,
}
use dbos_transact_ts.SysDb.Schema.{
  Status, WorkflowStatus, Caller, pending, enqueued, delayed, max_recovery_attempts_exceeded,
  status_eq,
}
use dbos_transact_ts.SysDb.Rows.{has_id, find_row}
use dbos_transact_ts.SysDb.Result.{
  Result, ok, err, conflicting_workflow, queue_duplicated, max_recovery_attempts,
}
use dbos_transact_ts.SysDb.Outcome.{update_workflow_status, no_update, anywhere}
use dbos_transact_ts.SysDb.Manage.{clashes}

-- `WorkflowStatusInternal`, as far as the row is made from it.
pub record InitStatus : Type 0 where
  pub workflow_uuid : String
  pub status : Status
  pub workflow_name : String
  pub workflow_class_name : String
  pub workflow_config_name : String
  pub queue_name : Option String
  pub caller : Caller
  pub input : Option String
  pub executor_id : String
  pub application_version : Option String
  pub created_at : ℕ
  pub updated_at : Option ℕ
  pub timeout_ms : Option ℕ
  pub deadline_epoch_ms : Option ℕ
  pub deduplication_id : Option String
  pub priority : ℕ
  pub queue_partition_key : Option String
  pub forked_from : Option String
  pub parent_workflow_id : Option String
  pub serialization : Option String
  pub delay_until_epoch_ms : Option ℕ
  pub debounce_deadline_epoch_ms : Option ℕ
  pub is_debounced : Bool

-- Not yet claimed by any executor.
abbrev pub waiting : Status → Bool
waiting s = status_eq s enqueued || status_eq s delayed

-- A class or configuration name that is not set must be NULL in the table.
abbrev pub null_if_empty : String → Option String
null_if_empty s = if same s "" then none else some s

-- The `VALUES` of the `INSERT`.
unfoldable pub new_row : ℕ → InitStatus → Option String → WorkflowStatus
new_row now i owner_xid = record {
  workflow_uuid = i.workflow_uuid;
  status = i.status;
  name = i.workflow_name;
  class_name = null_if_empty i.workflow_class_name;
  config_name = null_if_empty i.workflow_config_name;
  queue_name = i.queue_name;
  caller = i.caller;
  output = none;
  error = none;
  executor_id = some i.executor_id;
  application_version = i.application_version;
  created_at = i.created_at;
  updated_at = or_else i.updated_at now;
  recovery_attempts = if waiting i.status then 0 else 1;
  workflow_timeout_ms = i.timeout_ms;
  workflow_deadline_epoch_ms = i.deadline_epoch_ms;
  inputs = i.input;
  started_at_epoch_ms = none;
  deduplication_id = i.deduplication_id;
  priority = i.priority;
  queue_partition_key = i.queue_partition_key;
  forked_from = i.forked_from;
  was_forked_from = false;
  owner_xid = owner_xid;
  parent_workflow_id = i.parent_workflow_id;
  serialization = i.serialization;
  delay_until_epoch_ms = i.delay_until_epoch_ms;
  rate_limited = false;
  completed_at = none;
  debounce_deadline_epoch_ms = i.debounce_deadline_epoch_ms;
  is_debounced = i.is_debounced;
}

-- `ON CONFLICT (workflow_uuid) DO UPDATE`
unfoldable pub merge_row : ℕ → InitStatus → Bool → WorkflowStatus → WorkflowStatus
merge_row now i increment r = record r {
  recovery_attempts =
      if not (waiting r.status)
      then r.recovery_attempts + (if increment then 1 else 0)
      else r.recovery_attempts;
  updated_at = or_else i.updated_at now;
  executor_id = if not (waiting i.status) then some i.executor_id else r.executor_id;
}

-- The `RETURNING` row; a unique violation on the queue's deduplication index is an error.
unfoldable pub insert_workflow_status :
    ℕ
    → InitStatus
    → Option String
    → Bool
    → List WorkflowStatus
    → Result WorkflowStatus × List WorkflowStatus
insert_workflow_status now i owner_xid increment t = elim (find_row i.workflow_uuid t) [
  | some r ↦ (
    ok (merge_row now i increment r),
    update (has_id i.workflow_uuid) (merge_row now i increment) t,
  )
  | none ↦
      if is_some (first (clashes (new_row now i owner_xid)) t)
      then (
        err (
            queue_duplicated i.workflow_uuid (or_else i.queue_name "")
              (or_else i.deduplication_id "")),
        t,
      )
      else (ok (new_row now i owner_xid), t ++ new_row now i owner_xid ∷ [])
]

pub record InitOptions : Type 0 where
  pub is_recovery_request : Bool
  pub is_dequeued_request : Bool
  pub max_retries : Option ℕ

pub record InitResult : Type 0 where
  pub status : Status
  pub should_execute_on_this_executor : Bool
  pub deadline_epoch_ms : Option ℕ
  pub serialization : Option String

-- `options?.maxRetries && attempts > options?.maxRetries + 1`
abbrev pub too_many : Option ℕ → ℕ → Bool
too_many none attempts = false
too_many (some zero) attempts = false
too_many (some (suc n)) attempts = ltb (suc n + 1) attempts

-- What follows the checks of the names: `t` is the table before the transaction, `t'` after the
-- upsert. Leaving an existing workflow alone rolls back; all else commits.
unfoldable pub admit :
    ℕ
    → InitStatus
    → Option String
    → InitOptions
    → WorkflowStatus
    → List WorkflowStatus
    → List WorkflowStatus
    → Result InitResult × List WorkflowStatus
admit now i owner_xid o row t t' =
    if not (same_column owner_xid row.owner_xid)
      && not o.is_recovery_request
      && not o.is_dequeued_request
    then (
      if status_eq row.status max_recovery_attempts_exceeded
          then err (max_recovery_attempts i.workflow_uuid o.max_retries)
          else ok (record {
            status = row.status;
            should_execute_on_this_executor = false;
            deadline_epoch_ms = row.workflow_deadline_epoch_ms;
            serialization = row.serialization;
          }),
      t,
    )
    else (if too_many o.max_retries row.recovery_attempts
        then (
          err (max_recovery_attempts i.workflow_uuid o.max_retries),
          (update_workflow_status now i.workflow_uuid max_recovery_attempts_exceeded
              (record no_update { reset_deduplication_id = true })
              (record anywhere { status = some pending }) false t').1,
        )
        else (
          ok (record {
            status = row.status;
            should_execute_on_this_executor = true;
            deadline_epoch_ms = row.workflow_deadline_epoch_ms;
            serialization = row.serialization;
          }),
          t',
        ))

-- The provided name, class and configuration are those of the row.
abbrev pub same_function : InitStatus → WorkflowStatus → Bool
same_function i row =
    same row.name i.workflow_name
    && same (or_else row.class_name "") i.workflow_class_name
    && same (or_else row.config_name "") i.workflow_config_name

-- What follows the `INSERT`: a clash of names throws, which rolls back.
unfoldable pub after_insert :
    ℕ
    → InitStatus
    → Option String
    → InitOptions
    → List WorkflowStatus
    → List WorkflowStatus
    → Result WorkflowStatus
    → Result InitResult × List WorkflowStatus
after_insert now i owner_xid o t t' (err e) = (err e, t)
after_insert now i owner_xid o t t' (ok row) =
    if same_function i row
    then admit now i owner_xid o row t t'
    else (err (conflicting_workflow i.workflow_uuid), t)

unfoldable pub init_workflow_status :
    ℕ
    → InitStatus
    → Option String
    → InitOptions
    → List WorkflowStatus
    → Result InitResult × List WorkflowStatus
unfolding after_insert
init_workflow_status now i owner_xid o t =
    let (res, t') =
      insert_workflow_status now i owner_xid (o.is_recovery_request || o.is_dequeued_request) t in
    after_insert now i owner_xid o t t' res
