-- ===== src/SysDb/Dequeue/Counted.antt =====
-- The workflows that the limits of a queue count, without reference to the code of a dequeue.
use dbos_transact_ts.Common.{
  ℕ, ◌+◌, ◌*◌, ◌<◌, String, true, not, Option, none, some, List, ◌≡◌, ◌≢◌, ◌↔◌, refl, arith, count,
  IsCount, count-IsCount,
}
use dbos_transact_ts.Queue.Params.{WorkflowQueue, QueueRateLimit}
use dbos_transact_ts.SysDb.Schema.{
  Status, WorkflowStatus, pending, enqueued, delayed, success, error,
  max_recovery_attempts_exceeded, cancelled, status_eq,
}
use dbos_transact_ts.SysDb.Init.{waiting}
use dbos_transact_ts.SysDb.Dequeue.{Env, running, recent, started_within}
use dbos_transact_ts.SysDb.Dequeue.Room.{recent_starts}
use dbos_transact_ts.SysDb.Dequeue.Order.{InPartition, column_is_iff, in_partition_iff, and_iff}

-- A pending workflow of the queue and the partition.
abbrev pub IsRunning : WorkflowQueue → Option String → WorkflowStatus → Type 0
IsRunning q p r =
    (r.status ≡ pending) × (r.queue_name ≡ some q.name) × InPartition p r.queue_partition_key

abbrev pub StartedWithin : ℕ → ℕ → Option ℕ → Type 0
StartedWithin start period none = ⊥
StartedWithin start period (some s) = start < s + period

-- A rate-limited workflow of the queue and the partition that waits no more and has started less
-- than the period ago.
abbrev pub IsRecent : WorkflowQueue → Option String → ℕ → ℕ → WorkflowStatus → Type 0
IsRecent q p start period r =
    (r.queue_name ≡ some q.name)
    × InPartition p r.queue_partition_key
    × (r.rate_limited ≡ true)
    × (r.status ≢ enqueued)
    × (r.status ≢ delayed)
    × StartedWithin start period r.started_at_epoch_ms

-- `n` workflows count against the rate limit of the queue, if it has one.
abbrev pub IsRecentCount :
    Option QueueRateLimit → WorkflowQueue → Option String → Env → List WorkflowStatus → ℕ → Type 0
IsRecentCount none q p env t n = Unit {0}
IsRecentCount (some l) q p env t n =
    IsCount (IsRecent q p env.start_time_ms (l.period_sec * 1000)) t n

pending_iff : (s : Status) → (status_eq s pending ≡ true) ↔ (s ≡ pending)
pending_iff s = (λ h. ground arith, λ e. rw e refl)

running_iff :
    (q : WorkflowQueue) (p : Option String) (r : WorkflowStatus)
    → (running q p r ≡ true) ↔ IsRunning q p r
running_iff q p r =
    let whole =
      and_iff _ _ (and_iff _ _ (column_is_iff r.queue_name q.name) (in_partition_iff p r))
        (pending_iff r.status) in
    (λ h. let ((n, k), s) = whole.0 h in (s, n, k), λ (s, n, k). whole.1 ((n, k), s))

waiting_iff : (s : Status) → (not (waiting s) ≡ true) ↔ ((s ≢ enqueued) × (s ≢ delayed))
waiting_iff pending = (λ _. (λ e. ground arith, λ e. ground arith), λ _. refl)
waiting_iff success = (λ _. (λ e. ground arith, λ e. ground arith), λ _. refl)
waiting_iff error = (λ _. (λ e. ground arith, λ e. ground arith), λ _. refl)
waiting_iff max_recovery_attempts_exceeded =
    (λ _. (λ e. ground arith, λ e. ground arith), λ _. refl)
waiting_iff cancelled = (λ _. (λ e. ground arith, λ e. ground arith), λ _. refl)
waiting_iff enqueued = (λ h. cc, λ k. absurd (k.0 refl))
waiting_iff delayed = (λ h. cc, λ k. absurd (k.1 refl))

started_within_iff :
    (start period : ℕ) (o : Option ℕ)
    → (started_within start period o ≡ true) ↔ StartedWithin start period o
started_within_iff start period none = (λ h. cc, λ h. absurd h)
started_within_iff start period (some s) = (λ h. ground (arith, h), λ h. ground (arith, h))

recent_iff :
    (q : WorkflowQueue) (p : Option String) (start period : ℕ) (r : WorkflowStatus)
    → (recent q p start period r ≡ true) ↔ IsRecent q p start period r
recent_iff q p start period r =
    let whole =
      and_iff _ _
        (and_iff _ _
          (and_iff {B = r.rate_limited ≡ true} _ r.rate_limited
            (and_iff _ _ (column_is_iff r.queue_name q.name) (in_partition_iff p r))
            (λ h. h, λ h. h))
          (waiting_iff r.status))
        (started_within_iff start period r.started_at_epoch_ms) in
    (
      λ h. let ((((n, k), l), (w, d)), s) = whole.0 h in (n, k, l, w, d, s),
      λ (n, k, l, w, d, s). whole.1 ((((n, k), l), (w, d)), s),
    )

pub running-IsCount :
    (q : WorkflowQueue) (p : Option String) (t : List WorkflowStatus)
    → IsCount (IsRunning q p) t (count (running q p) t)
running-IsCount q p t = count-IsCount (running q p) (IsRunning q p) (running_iff q p) t

pub recent_starts-IsRecentCount :
    (l : Option QueueRateLimit) (q : WorkflowQueue) (p : Option String) (env : Env)
    (t : List WorkflowStatus)
    → IsRecentCount l q p env t (recent_starts l q p env t)
recent_starts-IsRecentCount none q p env t = tt
recent_starts-IsRecentCount (some l) q p env t =
    count-IsCount (recent q p env.start_time_ms (l.period_sec * 1000))
      (IsRecent q p env.start_time_ms (l.period_sec * 1000))
      (recent_iff q p env.start_time_ms (l.period_sec * 1000)) t
