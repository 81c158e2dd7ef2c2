-- ===== src/SysDb/Dequeue/Limits.antt =====
-- The concurrency and rate limits of a queue across a dequeue.
use dbos_transact_ts.Common.{
  ℕ, ◌+◌, ◌-◌, ◌≤◌, min, max, String, Option, none, some, List, [], ◌≡◌, count, length, length-map,
  arith, inl, inr, Option-cases,
}
use dbos_transact_ts.Queue.Params.{WorkflowQueue, QueueRateLimit}
use dbos_transact_ts.SysDb.Schema.{WorkflowStatus}
use dbos_transact_ts.SysDb.Rows.{UniqueIds}
use dbos_transact_ts.SysDb.Result.{Result, ok, err}
use dbos_transact_ts.SysDb.Dequeue.{
  Env, claim, max_tasks, min_tasks, worker_tasks, candidates, recent_count, waits_for_no_lock,
  running, recent, period_ms, find_and_mark_startable_workflows, selected,
}
use dbos_transact_ts.SysDb.Dequeue.Loop.{ids_of}
use dbos_transact_ts.SysDb.Dequeue.Claims.{
  claim-count_le, claim-length_le, claim-rate_le, lock_rows-length_le, dequeue_cases,
}

abbrev pub claimed_ids : Result (List String) → List String
claimed_ids (ok ids) = ids
claimed_ids (err e) = []

module _ (q : WorkflowQueue) (p : Option String) (env : Env) (t : List WorkflowStatus) where
  claimed_le_rows :
      (rows : List WorkflowStatus)
      → length (claim q env (recent_count q p env t) (ids_of rows) [] t).0 ≤ length rows
  claimed_le_rows rows = omega (
    arith,
    claim-length_le q env (recent_count q p env t) (ids_of rows) [] t,
    length-map rows (λ r. r.workflow_uuid),
  )

  selected-length_le :
      (n : ℕ) (rows : List WorkflowStatus)
      → max_tasks q p env.local_running t ≡ some n
      → selected q p env t ≡ ok rows
      → length rows ≤ n
  selected-length_le n rows e h =
      lock_rows-length_le (waits_for_no_lock q.concurrency) env n (candidates q p env t) rows
        (rw e at h)

  max_tasks_global :
      (c : ℕ)
      → q.concurrency ≡ some c
      → max_tasks q p env.local_running t
        ≡ some (
            min_tasks
              (worker_tasks q.worker_concurrency env.local_running)
              (c - count (running q p) t))
  unfolding max_tasks
  max_tasks_global c e = rw e

  min_tasks_le : (m : Option ℕ) (n : ℕ) → min_tasks m n ≤ n
  min_tasks_le none n = omega arith
  min_tasks_le (some m) n = omega arith

  -- On a table with distinct IDs and with a global limit of `c`, a dequeue leaves at most `c`
  -- workflows of the queue (or of the partition) pending, unless more were pending before; then it
  -- adds none.
  pub dequeue_concurrency :
      (c : ℕ)
      → UniqueIds t
      → q.concurrency ≡ some c
      → count (running q p) (find_and_mark_startable_workflows q p env t).1
        ≤ max c (count (running q p) t)
  dequeue_concurrency c unique e =
      dequeue_cases (λ r. count (running q p) r.1 ≤ max c (count (running q p) t)) q p env t
        (omega arith) (λ _. omega arith)
        λ rows _ h. omega (
          arith,
          claim-count_le q env (recent_count q p env t) (running q p) (ids_of rows) [] t unique,
          claimed_le_rows rows,
          min_tasks_le (worker_tasks q.worker_concurrency env.local_running)
              (c - count (running q p) t),
          selected-length_le _ rows (max_tasks_global c e) h,
        )

  max_tasks_worker :
      (w : ℕ)
      → q.worker_concurrency ≡ some w
      → (n : ℕ) × (max_tasks q p env.local_running t ≡ some n) × (n ≤ w - env.local_running)
  unfolding max_tasks
  max_tasks_worker w e = elim (Option-cases q.concurrency) [
    | inl c ↦ (w - env.local_running, rw (c, e), omega arith)
    | inr (c, h) ↦ (min (w - env.local_running) (c - count (running q p) t), rw (h, e), omega arith)
  ]

  -- A worker with a limit of `w` claims at most so many workflows of the queue that they and its
  -- local runs are no more than `w`, or none if its local runs exceed `w`.
  pub dequeue_worker_concurrency :
      (w : ℕ)
      → q.worker_concurrency ≡ some w
      → env.local_running + length (claimed_ids (find_and_mark_startable_workflows q p env t).0)
        ≤ max w env.local_running
  dequeue_worker_concurrency w e =
      dequeue_cases (λ r. env.local_running + length (claimed_ids r.0) ≤ max w env.local_running) q
        p env t (omega arith) (λ _. omega arith)
        λ rows _ h.
          let (n, e', le) = max_tasks_worker w e in
          omega (arith, claimed_le_rows rows, selected-length_le n rows e' h, le)

  -- On a table with distinct IDs and with a rate limit, the workflows that count as started within
  -- the period stay within the limit, unless they exceeded it before; then there are no more of
  -- them.
  pub dequeue_rate :
      (l : QueueRateLimit)
      → UniqueIds t
      → q.rate_limit ≡ some l
      → let counted = count (recent q p env.start_time_ms (period_ms q.rate_limit)) in
        counted (find_and_mark_startable_workflows q p env t).1 ≤ max l.limit_per_period (counted t)
  dequeue_rate l unique e =
      dequeue_cases
        (λ r.
          count (recent q p env.start_time_ms (period_ms q.rate_limit)) r.1
          ≤ max l.limit_per_period
              (count (recent q p env.start_time_ms (period_ms q.rate_limit)) t))
        q p env t (omega arith) (λ _. omega arith)
        λ rows room h. ground (
          arith,
          e,
          claim-count_le q env (recent_count q p env t)
              (recent q p env.start_time_ms (period_ms q.rate_limit)) (ids_of rows) [] t unique,
          claim-rate_le q env (recent_count q p env t) l (ids_of rows) [] t e,
        )
