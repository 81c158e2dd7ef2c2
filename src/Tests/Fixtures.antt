-- ===== src/Tests/Fixtures.antt =====
-- Test data: a queue, its rows and an executor.
use dbos_transact_ts.Common.{ℕ, String, Bool, true, false, Option, none, some, List, [], ◌∷◌}
use dbos_transact_ts.Queue.Params.{WorkflowQueue}
use dbos_transact_ts.SysDb.Schema.{Status, WorkflowStatus, Caller, Db, pending, enqueued, cancelled}
use dbos_transact_ts.SysDb.Dequeue.{Env}
use dbos_transact_ts.SysDb.Init.{InitStatus, InitOptions}

abbrev pub nobody : Caller
nobody = record {
  authenticated_user = "";
  assumed_role = "";
  authenticated_roles = "[]";
  request = "{}";
  application_id = "";
  attributes = none;
  schedule_name = none;
}

abbrev pub row : String → Status → ℕ → WorkflowStatus
row id status created = record {
  workflow_uuid = id;
  status = status;
  name = "transfer";
  class_name = none;
  config_name = none;
  queue_name = some "payments";
  caller = nobody;
  output = none;
  error = none;
  executor_id = some "local";
  application_version = some "v1";
  created_at = created;
  updated_at = created;
  recovery_attempts = 1;
  workflow_timeout_ms = none;
  workflow_deadline_epoch_ms = none;
  inputs = none;
  started_at_epoch_ms = none;
  deduplication_id = none;
  priority = 0;
  queue_partition_key = none;
  forked_from = none;
  was_forked_from = false;
  owner_xid = some "x1";
  parent_workflow_id = none;
  serialization = none;
  delay_until_epoch_ms = none;
  rate_limited = false;
  completed_at = none;
  debounce_deadline_epoch_ms = none;
  is_debounced = false;
}

-- One workflow that runs, one that waits and one that is cancelled.
abbrev pub table : List WorkflowStatus
table = row "a" pending 1 ∷ row "b" enqueued 2 ∷ row "c" cancelled 3 ∷ []

abbrev pub waiting_table : List WorkflowStatus
waiting_table = row "b" enqueued 2 ∷ []

abbrev pub payments : WorkflowQueue
payments = record {
  name = "payments";
  concurrency = some 2;
  rate_limit = some (record { limit_per_period = 1; period_sec = 60 });
  worker_concurrency = some 1;
  priority_enabled = false;
  partition_queue = false;
  min_polling_interval_ms = none;
  database_backed = true;
}

abbrev pub worker : Env
worker = record {
  start_time_ms = 100;
  now = 100;
  executor_id = "local";
  app_version = "v1";
  local_running = 0;
  versions = [];
  locked = λ _. false;
}

abbrev pub db : Db
db = record {
  workflow_status = table;
  operation_outputs = [];
  notifications = [];
  workflow_events = [];
  workflow_events_history = [];
  streams = [];
}

abbrev pub call : String → InitStatus
call id = record {
  workflow_uuid = id;
  status = pending;
  workflow_name = "transfer";
  workflow_class_name = "";
  workflow_config_name = "";
  queue_name = none;
  caller = nobody;
  input = none;
  executor_id = "other";
  application_version = some "v1";
  created_at = 9;
  updated_at = none;
  timeout_ms = none;
  deadline_epoch_ms = none;
  deduplication_id = none;
  priority = 0;
  queue_partition_key = none;
  forked_from = none;
  parent_workflow_id = none;
  serialization = none;
  delay_until_epoch_ms = none;
  debounce_deadline_epoch_ms = none;
  is_debounced = false;
}

abbrev pub options : Bool → Option ℕ → InitOptions
options recovery max_retries = record {
  is_recovery_request = recovery;
  is_dequeued_request = false;
  max_retries = max_retries;
}
