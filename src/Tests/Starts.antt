-- ===== src/Tests/Starts.antt =====
-- Calls of `initWorkflowStatus` on the test table.
use dbos_transact_ts.Common.{none, true, some, List, [], ◌∷◌, ◌≡◌, refl, same, arith}
use dbos_transact_ts.SysDb.Schema.{
  WorkflowStatus, pending, enqueued, max_recovery_attempts_exceeded,
}
use dbos_transact_ts.SysDb.Rows.{find_row}
use dbos_transact_ts.SysDb.Result.{err, max_recovery_attempts}
use dbos_transact_ts.SysDb.Init.{init_workflow_status}
use dbos_transact_ts.SysDb.Init.Admission.{init_give_up}
use dbos_transact_ts.Tests.Fixtures.{row, call, options}

abbrev holder : List WorkflowStatus
holder = record (row "h" enqueued 1) { deduplication_id = some "once" } ∷ []

abbrev tired : WorkflowStatus
tired = record (row "a" pending 1) { recovery_attempts = 5 }

init_give_up_example :
    ((init_workflow_status 9 (call "a") (some "x2") (options true (some 2)) (tired ∷ [])).0
      ≡ err (max_recovery_attempts "a" (some 2)))
    × (find_row "a"
          (init_workflow_status 9 (call "a") (some "x2") (options true (some 2)) (tired ∷ [])).1
        ≡ some (record tired {
          status = max_recovery_attempts_exceeded;
          recovery_attempts = 6;
          deduplication_id = none;
          updated_at = 9;
          executor_id = some (call "a").executor_id;
        }))
init_give_up_example =
    init_give_up 9 (call "a") (some "x2") (options true (some 2)) (tired ∷ []) tired
      (unfold find_row same in refl) 1 (unfold same in refl) refl refl refl (omega arith)
