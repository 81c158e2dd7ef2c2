-- ===== src/SysDb/Dequeue/Exact.antt =====
-- Which workflows a dequeue starts, in which order, and what it leaves in the table.
use mathlib.Core.Option
use mathlib.Core.Path.{fun_ext}
use dbos_transact_ts.Common.{
  ℕ, String, true, false, any_of, Option, some, List, ◌≡◌, sym, ap, ◌∙◌, if◌then◌else◌, ◌⊎◌, inl,
  inr, select, count, length, All, All-imp, All-zip, Occurs, Occurs-select, Occurs-order_by,
  IsOrdered, IsCount, IsOrdered-order_by, All-select, All-order_by,
}
use dbos_transact_ts.Queue.Params.{WorkflowQueue}
use dbos_transact_ts.SysDb.Schema.{WorkflowStatus}
use dbos_transact_ts.SysDb.Rows.{UniqueIds, find_row}
use dbos_transact_ts.SysDb.Result.{ok}
use dbos_transact_ts.SysDb.Dequeue.{
  Env, max_tasks, candidates, recent_count, running, before, startable,
  find_and_mark_startable_workflows,
}
use dbos_transact_ts.SysDb.Dequeue.Loop.{ids_of, Ready, room}
use dbos_transact_ts.SysDb.Dequeue.Marks.{limited-All}
use dbos_transact_ts.SysDb.Dequeue.Order.{
  Precedes, before-Precedes, before_not-Precedes, Precedes-trans, MayStart, startable_iff, started,
  mark_started-started,
}
use dbos_transact_ts.SysDb.Dequeue.Room.{
  recent_starts, rate-Within, rate-Reaches, WithinLimits, ReachesLimit, AtMost, AtMost-le,
  tasks-Within, tasks-Reaches, limit_rows-AtMost, limit_rows_le, limit_rows_all,
  IsOrdered-limit_rows, limit_rows_split,
}
use dbos_transact_ts.SysDb.Dequeue.Counted.{
  IsRunning, IsRecentCount, running-IsCount, recent_starts-IsRecentCount,
}
use dbos_transact_ts.SysDb.Dequeue.Selection.{
  unlocked, taken, taken-UniqueIds, candidates-Ready, dequeue-ids, dequeue-rows,
}

module _ (q : WorkflowQueue) (p : Option String) (env : Env) (t : List WorkflowStatus)
    (unique : UniqueIds t) where
  abbrev tasks : Option ℕ
  tasks = max_tasks q p env.local_running t

  abbrev left : Option ℕ
  left = room q.rate_limit (recent_count q p env t)

  abbrev rows : List WorkflowStatus
  rows = taken q p env t unique

  abbrev running_now : ℕ
  running_now = count (running q p) t

  abbrev lately : ℕ
  lately = recent_starts q.rate_limit q p env t

  rows-WithinLimits : WithinLimits q running_now env.local_running lately (length rows)
  unfolding max_tasks
  rows-WithinLimits =
      let few : AtMost tasks (length rows) =
        AtMost-le tasks (length rows) (length (unlocked q p env t unique))
          (limit_rows_le left (unlocked q p env t unique))
          (limit_rows-AtMost tasks (candidates q p env t)) in
      let (c, w) =
        tasks-Within q.concurrency q.worker_concurrency (count (running q p) t) env.local_running
          (length rows) few in
      (
        c,
        w,
        rate-Within q.rate_limit q p env t (length rows)
            (limit_rows-AtMost left (unlocked q p env t unique)),
      )

  candidates-IsOrdered : IsOrdered Precedes (candidates q p env t)
  unfolding candidates
  candidates-IsOrdered =
      IsOrdered-order_by Precedes before before-Precedes before_not-Precedes Precedes-trans
        (select (startable q p env) t)

  rows-IsOrdered : IsOrdered Precedes rows
  rows-IsOrdered =
      IsOrdered-limit_rows Precedes left (unlocked q p env t unique)
        (IsOrdered-limit_rows Precedes tasks (candidates q p env t) candidates-IsOrdered)

  rows-MayStart : All (λ r. (find_row r.workflow_uuid t ≡ some r) × MayStart q p env r) rows
  unfolding candidates
  rows-MayStart =
      let IsCandidate =
        λ (r : WorkflowStatus). (find_row r.workflow_uuid t ≡ some r) × MayStart q p env r in
      limited-All IsCandidate left (unlocked q p env t unique) (
        limited-All IsCandidate tasks (candidates q p env t) (
          All-imp (λ r. Ready t r × (startable q p env r ≡ true)) IsCandidate
            (λ r h. (h.0.0, (startable_iff q p env r).0 h.1)) (candidates q p env t)
            (All-zip (Ready t) (λ r. startable q p env r ≡ true) (candidates q p env t)
              (candidates-Ready q p env t unique)
              (All-order_by (λ r. startable q p env r ≡ true) before (select (startable q p env) t)
                (All-select (startable q p env) t)))))

  unlocked-rest :
      (r : WorkflowStatus)
      → Occurs r (candidates q p env t)
      → Occurs r (unlocked q p env t unique)
        ⊎ (All (λ x. Precedes x r) rows
            × ReachesLimit q running_now env.local_running lately (length rows))
  unfolding max_tasks
  unlocked-rest r candidate =
      elim (limit_rows_split Precedes tasks (candidates q p env t) r candidates-IsOrdered
        candidate) [
          | inl there ↦ inl there
          | inr (ahead, full) ↦ inr (
            limited-All (λ x. Precedes x r) left (unlocked q p env t unique) ahead,
            elim (limit_rows_all left (unlocked q p env t unique)) [
              | inl whole ↦ inl (
                  tasks-Reaches q.concurrency q.worker_concurrency (count (running q p) t)
                    env.local_running (length rows)
                    (full ∙ ap (λ xs. some (length xs)) (sym whole)))
              | inr reached ↦ inr (rate-Reaches q.rate_limit q p env t (length rows) reached)
            ],
          )
        ]

  candidates-rest :
      (r : WorkflowStatus)
      → Occurs r (candidates q p env t)
      → Occurs r rows
        ⊎ (All (λ x. Precedes x r) rows
            × ReachesLimit q running_now env.local_running lately (length rows))
  candidates-rest r candidate = elim (unlocked-rest r candidate) [
    | inl there ↦
        elim (limit_rows_split Precedes left (unlocked q p env t unique) r
          (IsOrdered-limit_rows Precedes tasks (candidates q p env t) candidates-IsOrdered) there) [
            | inl taken ↦ inl taken
            | inr (ahead, full) ↦
                inr (ahead, inr (rate-Reaches q.rate_limit q p env t (length rows) full))
          ]
    | inr rest ↦ inr rest
  ]

  rows-rest :
      (r : WorkflowStatus)
      → Occurs r t
      → MayStart q p env r
      → Occurs r rows
        ⊎ (All (λ x. Precedes x r) rows
            × ReachesLimit q running_now env.local_running lately (length rows))
  unfolding candidates
  rows-rest r there may = candidates-rest r (
      Occurs-order_by before (select (startable q p env) t) r
        (Occurs-select (startable q p env) t r ((startable_iff q p env r).1 may) there))

  -- On a table with distinct IDs of which no other transaction holds a row locked, a dequeue
  -- returns the IDs of distinct rows of the table. Each is an enqueued workflow of the queue and the
  -- partition, of the worker's version or, where the worker has the newest version, of none. They are
  -- in order of priority and then of creation. Added to the workflows that run in the queue and
  -- partition, to those that run on the worker and to the rate-limited ones that started within the
  -- period, they stay within the concurrency, the worker concurrency and the rate limit of the queue:
  -- a limit that is passed already lets none start. Where a workflow of the table that may start is
  -- not among them, each of them has a smaller priority, or the same and no later creation, and one of
  -- the three limits is reached. In the table they are then PENDING, with the executor, the version,
  -- the time and the deadline of their start, and every other row is found as before.
  pub dequeue_exact :
      ((id : String) → env.locked id ≡ false)
      → let (result, t') = find_and_mark_startable_workflows q p env t in
        (rows : List WorkflowStatus) × (started_now : ℕ) × (recent_now : ℕ) × (result
          ≡ ok (ids_of rows))
        × UniqueIds rows
        × All (λ r. (find_row r.workflow_uuid t ≡ some r) × MayStart q p env r) rows
        × IsOrdered Precedes rows
        × IsCount (IsRunning q p) t started_now
        × IsRecentCount q.rate_limit q p env t recent_now
        × WithinLimits q started_now env.local_running recent_now (length rows)
        × ((r : WorkflowStatus)
            → Occurs r t
            → MayStart q p env r
            → Occurs r rows
              ⊎ (All (λ x. Precedes x r) rows
                  × ReachesLimit q started_now env.local_running recent_now (length rows)))
        × ((id : String)
            → find_row id t'
              ≡ Option.map
                  (λ r. if any_of (ids_of rows) id then started q env r else r)
                  (find_row id t))
  dequeue_exact free = (
    rows,
    running_now,
    lately,
    dequeue-ids q p env t unique free,
    taken-UniqueIds q p env t unique,
    rows-MayStart,
    rows-IsOrdered,
    running-IsCount q p t,
    recent_starts-IsRecentCount q.rate_limit q p env t,
    rows-WithinLimits,
    rows-rest,
    λ id.
        dequeue-rows q p env t unique free id
        ∙ ap
            (λ (mark : WorkflowStatus → WorkflowStatus).
              Option.map (λ r. if any_of (ids_of rows) id then mark r else r) (find_row id t))
            (fun_ext (mark_started-started q env)),
  )
