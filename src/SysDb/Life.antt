-- ===== src/SysDb/Life.antt =====
-- The life of a workflow: the statements of the system database as the steps of a state machine
-- over the statuses of its rows. `setWorkflowStatus`, deletion and
-- garbage collection are not among them.
pub mod Steps
pub mod Starts
pub mod Runs
pub mod Invariants
pub mod Keys
pub mod Deduplication
use dbos_transact_ts.Common.{
  ℕ, String, Bool, true, false, Option, none, some, List, [], ◌∷◌, ◌≡◌, ◌≢◌, ◌⊎◌, any_of, same,
}
use dbos_transact_ts.Queue.Params.{WorkflowQueue}
use dbos_transact_ts.SysDb.Schema.{
  Status, WorkflowStatus, pending, success, error, cancelled, enqueued, delayed,
  max_recovery_attempts_exceeded,
}
use dbos_transact_ts.SysDb.Rows.{find_row}
use dbos_transact_ts.SysDb.Outcome.{record_workflow_output, record_workflow_error}
use dbos_transact_ts.SysDb.Manage.{
  cancel_workflows, resume_workflows, set_workflow_priority, set_workflow_delay,
  transition_delayed_workflows, reenqueue_workflows_for_recovery,
}
use dbos_transact_ts.SysDb.Init.{InitStatus, InitOptions, init_workflow_status}
use dbos_transact_ts.SysDb.Batch.{Cursors, enqueue_workflows}
use dbos_transact_ts.SysDb.Debounce.{DebounceParams, debounce_delayed_workflow}
use dbos_transact_ts.SysDb.Dequeue.{Env, find_and_mark_startable_workflows}

pub data Op : Type 0 where
  starts : ℕ → InitStatus → Option String → InitOptions → Op
  finishes : ℕ → String → Option String → Op
  fails : ℕ → String → Option String → Op
  cancels : ℕ → List String → Op
  resumes : ℕ → List String → Option String → Op
  prioritises : ℕ → String → ℕ → Op
  delays : ℕ → String → ℕ → Op
  wakes : ℕ → Op
  recovers : ℕ → String → String → String → Op
  dequeues : WorkflowQueue → Option String → Env → Op
  batches : ℕ → List InitStatus → Cursors → Op
  debounces : ℕ → DebounceParams → Op

-- What a statement leaves in the table, whether it returns or throws.
unfoldable pub apply : Op → List WorkflowStatus → List WorkflowStatus
apply (starts now i owner o) t = (init_workflow_status now i owner o t).1
apply (finishes now id output) t = (record_workflow_output now id output t).1
apply (fails now id error_text) t = (record_workflow_error now id error_text t).1
apply (cancels now ids) t = cancel_workflows now ids t
apply (resumes now ids queue) t = resume_workflows now ids queue t
apply (prioritises now id priority) t = set_workflow_priority now id priority t
apply (delays now id until) t = set_workflow_delay now id until t
apply (wakes now) t = transition_delayed_workflows now t
apply (recovers now executor version queue) t =
    (reenqueue_workflows_for_recovery now executor version queue t).1
apply (dequeues q p env) t = (find_and_mark_startable_workflows q p env t).1
apply (batches now is c) t = (enqueue_workflows now is t c).1
apply (debounces now p) t = (debounce_delayed_workflow now p t).1

unfoldable pub run : List Op → List WorkflowStatus → List WorkflowStatus
run [] t = t
run (op ∷ ops) t = run ops (apply op t)

abbrev pub HasOutcome : Status → Type 0
HasOutcome s = (s ≡ success) ⊎ (s ≡ error)

-- From the status `s` of the workflow `k`, the statement may lead to `s'`.
abbrev pub Allowed : Op → String → Status → Status → Type 0
Allowed (starts now i owner o) k s s' =
    (s' ≡ s)
    ⊎ ((same i.workflow_uuid k ≡ true) × (s ≡ pending) × (s' ≡ max_recovery_attempts_exceeded))
Allowed (finishes now id output) k s s' =
    (s' ≡ s) ⊎ ((same id k ≡ true) × (s ≢ cancelled) × (s' ≡ success))
Allowed (fails now id error_text) k s s' =
    (s' ≡ s) ⊎ ((same id k ≡ true) × (s ≢ cancelled) × (s' ≡ error))
Allowed (cancels now ids) k s s' =
    (s' ≡ s) ⊎ ((any_of ids k ≡ true) × (s ≢ success) × (s ≢ error) × (s' ≡ cancelled))
Allowed (resumes now ids queue) k s s' =
    (s' ≡ s) ⊎ ((any_of ids k ≡ true) × (s ≢ success) × (s ≢ error) × (s' ≡ enqueued))
Allowed (prioritises now id priority) k s s' = s' ≡ s
Allowed (delays now id until) k s s' = s' ≡ s
Allowed (wakes now) k s s' = (s' ≡ s) ⊎ ((s ≡ delayed) × (s' ≡ enqueued))
Allowed (recovers now executor version queue) k s s' = (s' ≡ s) ⊎ ((s ≡ pending) × (s' ≡ enqueued))
Allowed (dequeues q p env) k s s' = (s' ≡ s) ⊎ ((s ≡ enqueued) × (s' ≡ pending))
Allowed (batches now is c) k s s' = s' ≡ s
Allowed (debounces now p) k s s' = s' ≡ s

-- The row `r` of `k` is still there, under the same function, and its status has moved by `R`.
abbrev pub Follows :
    (Status → Status → Type 0) → String → WorkflowStatus → List WorkflowStatus → Type 0
Follows R k r t =
    (r' : WorkflowStatus) × (find_row k t ≡ some r')
    × R r.status r'.status
    × (r'.name ≡ r.name)
    × (r'.class_name ≡ r.class_name)
