-- ===== src/Tests/Forks.antt =====
-- Forks of a workflow, waits for its result, and its transfer to another database.
use dbos_transact_ts.Common.{
  ltb, ℕ, true, String, false, none, some, [], ◌∷◌, ◌≡◌, refl, same, if◌then◌else◌, arith, All,
  any_of,
}
use mathlib.Core.Option
use dbos_transact_ts.SysDb.Schema.{Db, OperationOutput, success, enqueued, pending}
use dbos_transact_ts.SysDb.Rows.{find_row}
use dbos_transact_ts.SysDb.Result.{ok}
use dbos_transact_ts.SysDb.Outcome.{record_workflow_outcome, update_workflow_status, truthy}
use dbos_transact_ts.SysDb.Steps.{find_step, run_and_record_result, new_step}
use dbos_transact_ts.SysDb.Fork.{ForkOptions, fork_workflow}
use dbos_transact_ts.SysDb.Fork.Replay.{copy_of, fork_workflow-find_step}
use dbos_transact_ts.SysDb.Fork.Failure.{FailureOptions, fork_from_failure, start_step_of}
use dbos_transact_ts.SysDb.Fork.Failure.Restart.{IsRestart, fork_from_failure-find_step}
use dbos_transact_ts.SysDb.Fork.Runs.{fork_workflow-replays}
use dbos_transact_ts.SysDb.Awaiting.{await_workflow_result, await_workflow_ids, returned}
use dbos_transact_ts.SysDb.Awaiting.Results.{
  await-record_workflow_outcome, await_workflow_ids-IsDone, IsDone,
}
use dbos_transact_ts.SysDb.Transfer.{ExportedWorkflow, export_workflow, import_workflow}
use dbos_transact_ts.SysDb.Transfer.RoundTrip.{import_workflow-export_workflow}
use dbos_transact_ts.Tests.Fixtures.{db, row}
use dbos_transact_ts.Tests.Replays.{recorded_db, charged, failing, clock}

abbrev plain : ForkOptions
plain = record {
  application_version = none;
  timeout_ms = none;
  queue_name = none;
  queue_partition_key = none;
  replacement_children = [];
}

abbrev forked : Db
forked = (fork_workflow 9 "a" "f" 2 plain recorded_db).1

forked_ok : fork_workflow 9 "a" "f" 2 plain recorded_db ≡ (ok (some "f"), forked)
unfolding fork_workflow new_step same
forked_ok = refl

fork_workflow-find_step_example :
    (find_step "f" 0 forked.operation_outputs
      ≡ Option.map
          (copy_of "f" [])
          (if ltb 0 2 then find_step "a" 0 recorded_db.operation_outputs else none))
    × ((id' : String)
        → same "f" id' ≡ false
        → find_step id' 0 forked.operation_outputs ≡ find_step id' 0 recorded_db.operation_outputs)
fork_workflow-find_step_example =
    fork_workflow-find_step 9 "a" "f" 2 plain recorded_db (some "f") forked forked_ok 0
      (unfold find_step new_step same in refl)

fork_workflow-replays_example :
    run_and_record_result "other" 8 9 "charge" "f" 0 failing forked ≡ (ok charged.output, forked)
fork_workflow-replays_example =
    fork_workflow-replays 9 "a" "f" 2 plain recorded_db (some "f") forked forked_ok 0 "charge"
      charged (unfold find_step new_step same in refl) (omega arith)
      (unfold find_step new_step same in refl) (unfold new_step in refl) "other" 8 9 failing

-- The workflow "b" succeeds while somebody waits for it.
abbrev finished : Db
finished = record db {
  workflow_status =
      (record_workflow_outcome 20 "b" success (some "done") none db.workflow_status).1;
}

await-record_workflow_outcome_example :
    await_workflow_result "local" clock
      (record { caller = none; timer = none })
      "b"
      (some 5)
      (record { others = λ _. finished; now = 60 } ∷ [])
      db
    ≡ some (
      ok (
          some (
            returned
              (if truthy (some "done") then some "done" else (row "b" enqueued 2).output)
              (row "b" enqueued 2).serialization)),
      finished,
    )
await-record_workflow_outcome_example =
    await-record_workflow_outcome 20 "b" (some "done") db (row "b" enqueued 2)
      (unfold find_row same in refl) (λ e. cc) "local" clock (some 5) db
      (record { others = λ _. finished; now = 60 }) [] refl

await_workflow_ids-IsDone_example : All (IsDone finished) ("b" ∷ "c" ∷ [])
await_workflow_ids-IsDone_example =
    await_workflow_ids-IsDone none ("b" ∷ "c" ∷ []) (record { others = λ d. d; now = 60 } ∷ [])
      finished finished (λ d id h. h, tt)
      (unfold await_workflow_ids record_workflow_outcome update_workflow_status any_of same in refl)

-- Another database, with one workflow.
abbrev elsewhere : Db
elsewhere = record db { workflow_status = row "z" enqueued 2 ∷ [] }

import_workflow-export_workflow_example :
    (w : ExportedWorkflow) × (export_workflow "a" false recorded_db ≡ some (ok (w ∷ [])))
    × ((import_workflow (w ∷ []) elsewhere).0 ≡ ok tt)
    × (export_workflow "a" false (import_workflow (w ∷ []) elsewhere).1 ≡ some (ok (w ∷ [])))
import_workflow-export_workflow_example =
    import_workflow-export_workflow "a" (row "a" pending 1) recorded_db elsewhere
      (unfold find_row same in refl) (unfold find_row same in refl) (unfold same in refl)
      ((tt, tt), tt, tt, tt) (tt, tt, tt, tt)

-- A second step of "a" failed.
abbrev broken_db : Db
broken_db = record db {
  operation_outputs =
      charged
      ∷ new_step "a" 1 "ship" 6 7 (record {
        child_workflow_id = none;
        output = none;
        error = some "late";
        serialization = none;
      })
      ∷ [];
}

abbrev last_failure : FailureOptions
last_failure = record {
  application_version = none;
  queue_name = none;
  queue_partition_key = none;
  from_last_failure = true;
  from_last_step = false;
  from_step = none;
  from_step_name = none;
}

abbrev reforked : Db
reforked = (fork_from_failure 9 ("a" ∷ []) ("f" ∷ []) last_failure (λ d. d) broken_db).1

unknown : (fn : ℕ) → find_step "f" fn broken_db.operation_outputs ≡ none
unfolding find_step new_step same
unknown fn = refl

fork_from_failure-find_step_example :
    (s : ℕ) × IsRestart "a" s broken_db.operation_outputs
    × ((fn : ℕ)
        → find_step "f" fn reforked.operation_outputs
          ≡ Option.map
              (λ (r : OperationOutput). record r { workflow_uuid = "f" })
              (if ltb fn s then find_step "a" fn broken_db.operation_outputs else none))
fork_from_failure-find_step_example =
    fork_from_failure-find_step 9 "a" "f" last_failure (λ d. d) broken_db reforked ("f" ∷ []) refl
      (λ d. refl) (unfold fork_from_failure new_step same in refl) unknown

restarted_test : start_step_of last_failure "a" broken_db.operation_outputs ≡ some 1
unfolding start_step_of new_step same
restarted_test = refl
