-- ===== src/SysDb/Schema.antt =====
-- The rows of the system database (schemas/system_db_schema.ts) and the statuses of a workflow
-- (src/workflow.ts).
use dbos_transact_ts.Common.{ℕ, String, Bool, true, false, Option, List, ◌||◌}

-- The members of `StatusString`.
pub data Status : Type 0 where
  pending success error max_recovery_attempts_exceeded cancelled enqueued delayed : Status

abbrev pub status_eq : Status → Status → Bool
status_eq pending pending = true
status_eq success success = true
status_eq error error = true
status_eq max_recovery_attempts_exceeded max_recovery_attempts_exceeded = true
status_eq cancelled cancelled = true
status_eq enqueued enqueued = true
status_eq delayed delayed = true
status_eq _ _ = false

-- `isWorkflowActive` of src/workflow.ts.
abbrev pub is_workflow_active : Status → Bool
is_workflow_active s = status_eq s pending || status_eq s enqueued || status_eq s delayed

-- The columns that no statement of the engine reads back to decide anything.
pub record Caller : Type 0 where
  pub authenticated_user : String
  pub assumed_role : String
  pub authenticated_roles : String
  pub request : String
  pub application_id : String
  pub attributes : Option String
  pub schedule_name : Option String

-- A row of `workflow_status`.
pub record WorkflowStatus : Type 0 where
  pub workflow_uuid : String
  pub status : Status
  pub name : String
  pub class_name : Option String
  pub config_name : Option String
  pub queue_name : Option String
  pub caller : Caller
  pub output : Option String
  pub error : Option String
  pub executor_id : Option String
  pub application_version : Option String
  pub created_at : ℕ
  pub updated_at : ℕ
  pub recovery_attempts : ℕ
  pub workflow_timeout_ms : Option ℕ
  pub workflow_deadline_epoch_ms : Option ℕ
  pub inputs : Option String
  pub started_at_epoch_ms : Option ℕ
  pub deduplication_id : Option String
  pub priority : ℕ
  pub queue_partition_key : Option String
  pub forked_from : Option String
  pub was_forked_from : Bool
  pub owner_xid : Option String
  pub parent_workflow_id : Option String
  pub serialization : Option String
  pub delay_until_epoch_ms : Option ℕ
  pub rate_limited : Bool
  pub completed_at : Option ℕ
  pub debounce_deadline_epoch_ms : Option ℕ
  pub is_debounced : Bool

-- A row of `operation_outputs`: the checkpoint of one step.
pub record OperationOutput : Type 0 where
  pub workflow_uuid : String
  pub function_id : ℕ
  pub output : Option String
  pub error : Option String
  pub function_name : Option String
  pub child_workflow_id : Option String
  pub started_at_epoch_ms : ℕ
  pub completed_at_epoch_ms : ℕ
  pub serialization : Option String

-- A row of `notifications`: a message to a workflow.
pub record Notification : Type 0 where
  pub message_uuid : String
  pub destination_uuid : String
  pub topic : String
  pub message : String
  pub serialization : Option String
  pub created_at_epoch_ms : ℕ
  pub consumed : Bool

-- A row of `workflow_events`: the last value set under a key.
pub record WorkflowEvent : Type 0 where
  pub workflow_uuid : String
  pub key : String
  pub value : String
  pub serialization : Option String

-- A row of `workflow_events_history`: what one step set under a key.
pub record WorkflowEventHistory : Type 0 where
  pub workflow_uuid : String
  pub function_id : ℕ
  pub key : String
  pub value : String
  pub serialization : Option String

-- A row of `streams`: one entry of a stream.
pub record StreamEntry : Type 0 where
  pub workflow_uuid : String
  pub key : String
  pub value : String
  pub offset : ℕ
  pub function_id : ℕ
  pub serialization : Option String

-- The tables that a workflow and its steps share.
pub record Db : Type 0 where
  pub workflow_status : List WorkflowStatus
  pub operation_outputs : List OperationOutput
  pub notifications : List Notification
  pub workflow_events : List WorkflowEvent
  pub workflow_events_history : List WorkflowEventHistory
  pub streams : List StreamEntry
