-- ===== src/Tests/Dequeues.antt =====
-- Dequeues of the test queue.
use mathlib.Core.Option
use dbos_transact_ts.Common.{
  List, All, IsOrdered, IsCount, ℕ, Occurs, length, some, ◌⊎◌, any_of, if◌then◌else◌, ◌≤◌, max,
  String, [], ◌∷◌, ◌≡◌, refl, same, same_iff, count, arith, false, true, none, same_refl,
}
use dbos_transact_ts.SysDb.Rows.{UniqueIds, find_row}
use dbos_transact_ts.SysDb.Result.{ok}
use dbos_transact_ts.SysDb.Dequeue.{
  max_tasks, lock_rows, candidates, claim, find_and_mark_startable_workflows, running, recent,
}
use dbos_transact_ts.SysDb.Dequeue.Loop.{ids_of}
use dbos_transact_ts.SysDb.Schema.{WorkflowStatus}
use dbos_transact_ts.SysDb.Dequeue.Order.{Precedes, MayStart, started}
use dbos_transact_ts.SysDb.Dequeue.Counted.{IsRunning, IsRecentCount}
use dbos_transact_ts.SysDb.Dequeue.Room.{WithinLimits, ReachesLimit}
use dbos_transact_ts.SysDb.Dequeue.Limits.{dequeue_concurrency, dequeue_rate}
use dbos_transact_ts.SysDb.Dequeue.Exact.{dequeue_exact}
use dbos_transact_ts.Tests.Fixtures.{table, payments, worker}

-- Two different texts are not both the same as a third.
apart : (a b k : String) → same a b ≡ false → same a k ≡ true → same b k ≡ true → ⊥
apart a b k h x y =
    let e : same a b ≡ true = rw ((same_iff a k).0 x, (same_iff b k).0 y) (same_refl k) in cc

table-UniqueIds : UniqueIds table
table-UniqueIds id = ground (
  arith,
  apart "a" "b" id (unfold same in refl),
  apart "a" "c" id (unfold same in refl),
  apart "b" "c" id (unfold same in refl),
)

dequeue_concurrency_example :
    count (running payments none) (find_and_mark_startable_workflows payments none worker table).1
    ≤ max 2 (count (running payments none) table)
dequeue_concurrency_example = dequeue_concurrency payments none worker table 2 table-UniqueIds refl

dequeue_rate_example :
    count
      (recent payments none 100 60000)
      (find_and_mark_startable_workflows payments none worker table).1
    ≤ max 1 (count (recent payments none 100 60000) table)
dequeue_rate_example =
    dequeue_rate payments none worker table (record { limit_per_period = 1; period_sec = 60 })
      table-UniqueIds refl

dequeue_exact_example :
    let (result, t') = find_and_mark_startable_workflows payments none worker table in
    (rows : List WorkflowStatus) × (started_now : ℕ) × (recent_now : ℕ) × (result
      ≡ ok (ids_of rows))
    × UniqueIds rows
    × All (λ r. (find_row r.workflow_uuid table ≡ some r) × MayStart payments none worker r) rows
    × IsOrdered Precedes rows
    × IsCount (IsRunning payments none) table started_now
    × IsRecentCount payments.rate_limit payments none worker table recent_now
    × WithinLimits payments started_now worker.local_running recent_now (length rows)
    × ((r : WorkflowStatus)
        → Occurs r table
        → MayStart payments none worker r
        → Occurs r rows
          ⊎ (All (λ x. Precedes x r) rows
              × ReachesLimit payments started_now worker.local_running recent_now (length rows)))
    × ((id : String)
        → find_row id t'
          ≡ Option.map
              (λ r. if any_of (ids_of rows) id then started payments worker r else r)
              (find_row id table))
dequeue_exact_example = dequeue_exact payments none worker table table-UniqueIds (λ _. refl)

-- The one waiting workflow is claimed.
claims_b : (find_and_mark_startable_workflows payments none worker table).0 ≡ ok ("b" ∷ [])
unfolding find_and_mark_startable_workflows max_tasks lock_rows candidates claim same
claims_b = refl
