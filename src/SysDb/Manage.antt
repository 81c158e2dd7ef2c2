-- ===== src/SysDb/Manage.antt =====
-- Statements on many workflows: cancelling, resuming, priorities, delays, recovery, the end of
-- delays, deletion and garbage collection.
pub mod Recovery
pub mod Collection
use mathlib.Core.Option
use dbos_transact_ts.Common.{
  ℕ, zero, suc, String, Bool, false, not, ◌&&◌, ◌||◌, Option, none, some, List, [], ◌∷◌,
  if◌then◌else◌, or_else, is_some, update, select, delete, first, order_by, ltb, leb, column_is,
  any_of, map, get_elem?,
}
use dbos_transact_ts.SysDb.Schema.{
  Status, WorkflowStatus, pending, cancelled, success, error, enqueued, delayed, status_eq,
  is_workflow_active,
}
use dbos_transact_ts.SysDb.Rows.{has_id}
use dbos_transact_ts.SysDb.Result.{Result, ok, err, unique_violation, bad_request}

-- `INTERNAL_QUEUE_NAME` of src/utils.ts.
abbrev pub internal_queue_name : String
internal_queue_name = "_dbos_internal_queue"

-- `status NOT IN ('SUCCESS', 'ERROR')`
abbrev pub unfinished : Status → Bool
unfinished s = not (status_eq s success || status_eq s error)

unfoldable pub cancel_workflows : ℕ → List String → List WorkflowStatus → List WorkflowStatus
cancel_workflows now ids t =
    update (λ r. any_of ids r.workflow_uuid && unfinished r.status)
      (λ r. record r {
        status = cancelled;
        queue_name = none;
        deduplication_id = none;
        started_at_epoch_ms = none;
        updated_at = now;
        completed_at = some now;
      })
      t

unfoldable pub resume_workflows :
    ℕ → List String → Option String → List WorkflowStatus → List WorkflowStatus
resume_workflows now ids queue_name t =
    update (λ r. any_of ids r.workflow_uuid && unfinished r.status)
      (λ r. record r {
        status = enqueued;
        queue_name = some (or_else queue_name internal_queue_name);
        recovery_attempts = 0;
        workflow_deadline_epoch_ms = none;
        deduplication_id = none;
        started_at_epoch_ms = none;
        updated_at = now;
        completed_at = none;
      })
      t

unfoldable pub set_workflow_priority : ℕ → String → ℕ → List WorkflowStatus → List WorkflowStatus
set_workflow_priority now id priority t =
    update (λ r. has_id id r && (status_eq r.status enqueued || status_eq r.status delayed))
      (λ r. record r { priority = priority; updated_at = now }) t

unfoldable pub set_workflow_delay : ℕ → String → ℕ → List WorkflowStatus → List WorkflowStatus
set_workflow_delay now id until t =
    update (λ r. has_id id r && status_eq r.status delayed)
      (λ r. record r { delay_until_epoch_ms = some until; updated_at = now }) t

-- `delay_until_epoch_ms <= $2`, which a NULL does not satisfy.
abbrev pub due : Option ℕ → ℕ → Bool
due none now = false
due (some d) now = leb d now

unfoldable pub transition_delayed_workflows : ℕ → List WorkflowStatus → List WorkflowStatus
transition_delayed_workflows now t =
    update (λ r. status_eq r.status delayed && due r.delay_until_epoch_ms now)
      (λ r. record r {
        status = enqueued;
        updated_at = now;
        deduplication_id = if r.is_debounced then none else r.deduplication_id;
      })
      t

-- The unique index on (`queue_name`, `deduplication_id`), in which a NULL equals nothing.
abbrev pub shares : Option String → Option String → Bool
shares none b = false
shares (some s) b = column_is b s

abbrev pub clashes : WorkflowStatus → WorkflowStatus → Bool
clashes r s = shares r.queue_name s.queue_name && shares r.deduplication_id s.deduplication_id

abbrev pub breaks_unique : List WorkflowStatus → Bool
breaks_unique [] = false
breaks_unique (r ∷ t) = is_some (first (clashes r) t) || breaks_unique t

abbrev pub recoverable : String → String → WorkflowStatus → Bool
recoverable executor_id app_version r =
    status_eq r.status pending
    && column_is r.executor_id executor_id
    && column_is r.application_version app_version

unfoldable pub get_pending_workflows : String → String → List WorkflowStatus → List String
get_pending_workflows executor_id app_version t =
    map (λ r. r.workflow_uuid) (select (recoverable executor_id app_version) t)

-- The `SET` clause of a recovery.
abbrev pub reenqueued : ℕ → String → WorkflowStatus → WorkflowStatus
reenqueued now queue r = record r {
  started_at_epoch_ms = none;
  status = enqueued;
  updated_at = now;
  queue_name = some (or_else r.queue_name queue);
}

unfoldable pub reenqueue_workflows_for_recovery :
    ℕ → String → String → String → List WorkflowStatus → Result (List String) × List WorkflowStatus
reenqueue_workflows_for_recovery now executor_id app_version queue t =
    let t' = update (recoverable executor_id app_version) (reenqueued now queue) t in
    if breaks_unique t'
    then (err unique_violation, t)
    else (ok (map (λ r. r.workflow_uuid) (select (recoverable executor_id app_version) t)), t')

unfoldable pub get_deduplicated_workflow : String → String → List WorkflowStatus → Option String
get_deduplicated_workflow queue dedup t =
    Option.map (λ r. r.workflow_uuid)
      (first (λ r. column_is r.queue_name queue && column_is r.deduplication_id dedup) t)

-- `ORDER BY created_at DESC`
abbrev pub newest_first : WorkflowStatus → WorkflowStatus → Bool
newest_first a b = leb b.created_at a.created_at

-- The cutoff that the row threshold gives: `LIMIT 1 OFFSET rowsThreshold - 1`. For a threshold of 0
-- the offset is negative, which the database refuses.
unfoldable pub rows_based_cutoff : ℕ → List WorkflowStatus → Result (Option ℕ)
rows_based_cutoff zero t = err bad_request
rows_based_cutoff (suc n) t =
    ok (Option.map (λ r. r.created_at) (get_elem? (order_by newest_first t) n))

-- The later of the two cutoffs.
abbrev pub stricter : Option ℕ → Option ℕ → Option ℕ
stricter cutoff none = cutoff
stricter none (some b) = some b
stricter (some a) (some b) = if ltb a b then some b else some a

abbrev pub collectable : ℕ → WorkflowStatus → Bool
collectable cutoff r = ltb r.created_at cutoff && not (is_workflow_active r.status)

abbrev pub collect : Option ℕ → List WorkflowStatus → List WorkflowStatus
collect none t = t
collect (some c) t = delete (collectable c) t

unfoldable pub garbage_collect :
    Option ℕ → Option ℕ → List WorkflowStatus → Result (Unit {0}) × List WorkflowStatus
unfolding rows_based_cutoff
garbage_collect cutoff none t = (ok tt, collect cutoff t)
garbage_collect cutoff (some threshold) t = elim (rows_based_cutoff threshold t) [
  | err e ↦ (err e, t)
  | ok rows ↦ (ok tt, collect (stricter cutoff rows) t)
]

unfoldable pub delete_rows : List String → List WorkflowStatus → List WorkflowStatus
delete_rows ids t = delete (λ r. any_of ids r.workflow_uuid) t
