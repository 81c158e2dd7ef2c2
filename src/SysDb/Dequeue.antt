-- ===== src/SysDb/Dequeue.antt =====
-- `findAndMarkStartableWorkflows`: a worker claims workflows of a queue (or of one partition of it)
-- in one transaction. `Env` holds what the transaction finds besides the table: the two clocks, the
-- registry's count of local runs, the latest version, and the rows that other transactions hold
-- locked. A claimed row cannot change between its `SELECT ... FOR UPDATE` and its `UPDATE`.
pub mod Claims
pub mod Loop
pub mod Marks
pub mod Selection
pub mod Order
pub mod Room
pub mod Counted
pub mod Exact
pub mod Limits
use dbos_transact_ts.Common.{
  ℕ, zero, suc, ◌+◌, ◌-◌, ◌*◌, min, String, Bool, true, false, not, ◌&&◌, ◌||◌, Option, none, some,
  List, [], ◌∷◌, ◌++◌, same, column_is, same_column, if◌then◌else◌, is_some, update, select, count,
  first, order_by, take, map, length, ltb, leb, ◌==◌,
}
use dbos_transact_ts.Queue.Params.{WorkflowQueue, QueueRateLimit}
use dbos_transact_ts.SysDb.Schema.{WorkflowStatus, pending, enqueued, status_eq}
use dbos_transact_ts.SysDb.Rows.{has_id}
use dbos_transact_ts.SysDb.Result.{Result, ok, err, lock_not_available}
use dbos_transact_ts.SysDb.Init.{waiting}

-- A row of `application_versions`.
pub record VersionInfo : Type 0 where
  pub version_name : String
  pub version_timestamp : ℕ

pub record Env : Type 0 where
  pub start_time_ms : ℕ
  pub now : ℕ
  pub executor_id : String
  pub app_version : String
  pub local_running : ℕ
  pub versions : List VersionInfo
  pub locked : String → Bool

-- An entry of the in-memory registry of running workflows.
pub record Running : Type 0 where
  pub queue_name : Option String
  pub queue_partition_key : Option String

unfoldable pub count_running_workflows_for_queue : String → Option String → List Running → ℕ
count_running_workflows_for_queue queue partition entries =
    count (λ e. column_is e.queue_name queue && same_column e.queue_partition_key partition) entries

-- `AND queue_partition_key = $PARTITION`, if a partition is given.
abbrev pub in_partition : Option String → WorkflowStatus → Bool
in_partition none r = true
in_partition (some k) r = column_is r.queue_partition_key k

abbrev pub in_queue : WorkflowQueue → Option String → WorkflowStatus → Bool
in_queue q p r = column_is r.queue_name q.name && in_partition p r

-- `started_at_epoch_ms > startTimeMs - limiterPeriodMS`, which a NULL does not satisfy.
abbrev pub started_within : ℕ → ℕ → Option ℕ → Bool
started_within start period none = false
started_within start period (some s) = ltb start (s + period)

-- The workflows that count against the rate limit.
abbrev pub recent : WorkflowQueue → Option String → ℕ → ℕ → WorkflowStatus → Bool
recent q p start period r =
    in_queue q p r
    && r.rate_limited
    && not (waiting r.status)
    && started_within start period r.started_at_epoch_ms

-- The workflows that count against the global concurrency limit.
abbrev pub running : WorkflowQueue → Option String → WorkflowStatus → Bool
running q p r = in_queue q p r && status_eq r.status pending

-- `maxTasks`, where `none` is `Infinity`.
abbrev pub min_tasks : Option ℕ → ℕ → ℕ
min_tasks none n = n
min_tasks (some m) n = min m n

abbrev pub worker_tasks : Option ℕ → ℕ → Option ℕ
worker_tasks none n = none
worker_tasks (some w) n = some (w - n)

abbrev pub global_tasks : Option ℕ → ℕ → Option ℕ → Option ℕ
global_tasks none n m = m
global_tasks (some c) n m = some (min_tasks m (c - n))

unfoldable pub max_tasks : WorkflowQueue → Option String → ℕ → List WorkflowStatus → Option ℕ
max_tasks q p local_running t =
    global_tasks q.concurrency (count (running q p) t)
      (worker_tasks q.worker_concurrency local_running)

-- The first row of `ORDER BY version_timestamp DESC LIMIT 1`.
unfoldable pub latest_version : List VersionInfo → Option String
latest_version vs = elim (order_by (λ a b. leb b.version_timestamp a.version_timestamp) vs) [
  | [] ↦ none
  | v ∷ rest ↦ some v.version_name
]

abbrev pub is_latest : Option String → String → Bool
is_latest none app_version = true
is_latest (some v) app_version = same v app_version

-- `versionClause`
abbrev pub version_matches : Env → WorkflowStatus → Bool
version_matches env r =
    column_is r.application_version env.app_version
    || is_latest (latest_version env.versions) env.app_version
      && not (is_some r.application_version)

abbrev pub startable : WorkflowQueue → Option String → Env → WorkflowStatus → Bool
startable q p env r = status_eq r.status enqueued && in_queue q p r && version_matches env r

-- `ORDER BY priority ASC, created_at ASC`
abbrev pub before : WorkflowStatus → WorkflowStatus → Bool
before a b = ltb a.priority b.priority || a.priority == b.priority && leb a.created_at b.created_at

abbrev pub limit_rows {ℓ} : {A : Type ℓ} → Option ℕ → List A → List A
limit_rows none xs = xs
limit_rows (some n) xs = take n xs

unfoldable pub candidates :
    WorkflowQueue → Option String → Env → List WorkflowStatus → List WorkflowStatus
candidates q p env t = order_by before (select (startable q p env) t)

-- `queue.concurrency ? 'FOR UPDATE NOWAIT' : 'FOR UPDATE SKIP LOCKED'`; the limit counts the rows
-- that are locked here.
abbrev pub waits_for_no_lock : Option ℕ → Bool
waits_for_no_lock none = false
waits_for_no_lock (some zero) = false
waits_for_no_lock (some (suc n)) = true

abbrev pub is_locked : Env → WorkflowStatus → Bool
is_locked env r = env.locked r.workflow_uuid

unfoldable pub lock_rows :
    Bool → Env → Option ℕ → List WorkflowStatus → Result (List WorkflowStatus)
lock_rows nowait env limit rows =
    if nowait
    then (if is_some (first (is_locked env) (limit_rows limit rows))
        then err lock_not_available
        else ok (limit_rows limit rows))
    else ok (limit_rows limit (select (λ r. not (is_locked env r)) rows))

-- `workflow_deadline_epoch_ms = CASE ... END`
abbrev pub start_deadline : ℕ → Option ℕ → Option ℕ → Option ℕ
start_deadline now (some timeout) none = some (now + timeout)
start_deadline now timeout deadline = deadline

unfoldable pub mark_started : WorkflowQueue → Env → WorkflowStatus → WorkflowStatus
mark_started q env r = record r {
  status = pending;
  executor_id = some env.executor_id;
  application_version = some env.app_version;
  started_at_epoch_ms = some env.start_time_ms;
  rate_limited = is_some q.rate_limit;
  workflow_deadline_epoch_ms =
      start_deadline env.now r.workflow_timeout_ms r.workflow_deadline_epoch_ms;
}

-- `workflow_uuid = $6 AND status = $7`
abbrev pub claimable : String → WorkflowStatus → Bool
claimable id r = has_id id r && status_eq r.status enqueued

-- The number started so far has reached the rate limit.
abbrev pub limit_reached : Option QueueRateLimit → ℕ → Bool
limit_reached none n = false
limit_reached (some l) n = leb l.limit_per_period n

abbrev pub push_if {ℓ} : {A : Type ℓ} → Bool → List A → A → List A
push_if true xs a = xs ++ a ∷ []
push_if false xs a = xs

-- The loop over the selected workflows; `break` ends it.
unfoldable pub claim :
    WorkflowQueue
    → Env
    → ℕ
    → List String
    → List String
    → List WorkflowStatus
    → List String × List WorkflowStatus
unfolding mark_started
claim q env recent_count [] claimed t = (claimed, t)
claim q env recent_count (id ∷ ids) claimed t =
    let rest =
      claim q env recent_count ids (push_if (ltb 0 (count (claimable id) t)) claimed id)
        (update (claimable id) (mark_started q env) t) in
    if limit_reached q.rate_limit (length claimed + recent_count) then (claimed, t) else rest

abbrev pub period_ms : Option QueueRateLimit → ℕ
period_ms none = 0
period_ms (some l) = l.period_sec * 1000

abbrev pub recent_count : WorkflowQueue → Option String → Env → List WorkflowStatus → ℕ
recent_count q p env t =
    if is_some q.rate_limit
    then count (recent q p env.start_time_ms (period_ms q.rate_limit)) t
    else 0

-- `maxTasks <= 0`
abbrev pub no_tasks : Option ℕ → Bool
no_tasks none = false
no_tasks (some zero) = true
no_tasks (some (suc n)) = false

-- What follows the `SELECT`.
unfoldable pub start_rows :
    WorkflowQueue
    → Option String
    → Env
    → List WorkflowStatus
    → Result (List WorkflowStatus)
    → Result (List String) × List WorkflowStatus
start_rows q p env t (err e) = (err e, t)
start_rows q p env t (ok rows) =
    let (claimed, t') =
      claim q env (recent_count q p env t) (map (λ r. r.workflow_uuid) rows) [] t in
    (ok claimed, t')

abbrev pub selected :
    WorkflowQueue → Option String → Env → List WorkflowStatus → Result (List WorkflowStatus)
selected q p env t =
    lock_rows (waits_for_no_lock q.concurrency) env (max_tasks q p env.local_running t)
      (candidates q p env t)

unfoldable pub find_and_mark_startable_workflows :
    WorkflowQueue
    → Option String
    → Env
    → List WorkflowStatus
    → Result (List String) × List WorkflowStatus
unfolding start_rows
find_and_mark_startable_workflows q p env t =
    if limit_reached q.rate_limit (recent_count q p env t)
    then (ok [], t)
    else (if no_tasks (max_tasks q p env.local_running t)
        then (ok [], t)
        else start_rows q p env t (selected q p env t))
