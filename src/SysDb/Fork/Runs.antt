-- ===== src/SysDb/Fork/Runs.antt =====
-- Running a fork: a step that the original had run before the first step to run is not run again.
use dbos_transact_ts.Common.{
  ℕ, ◌<◌, String, true, Option, none, some, [], ◌∷◌, ◌++◌, ◌≡◌, refl, arith, same_refl, any_of, map,
}
use dbos_transact_ts.SysDb.Schema.{Db, WorkflowStatus, OperationOutput, enqueued}
use dbos_transact_ts.SysDb.Rows.{find_row, find_row-update, has_id}
use dbos_transact_ts.SysDb.Result.{Result, ok}
use dbos_transact_ts.SysDb.Outcome.{check_if_canceled, get_workflow_status_value}
use dbos_transact_ts.SysDb.Steps.{
  find_step, run_and_record_result, get_operation_result_and_throw_if_cancelled,
}
use dbos_transact_ts.SysDb.Steps.Checkpoints.{first-append_new}
use dbos_transact_ts.SysDb.Fork.{
  ForkOptions, Mapping, fork_workflow, forked_row, mark_forked, moved_output, copy_steps,
}
use dbos_transact_ts.SysDb.Fork.Replay.{mapping, fork_workflow-ok, fork_workflow-steps}

module _ (now : ℕ) (id new_id : String) (start_step : ℕ) (o : ForkOptions) (db : Db) where
  forked_status :
      (ws : WorkflowStatus)
      → find_row new_id db.workflow_status ≡ none
      → get_workflow_status_value new_id (
          mark_forked (mapping now id new_id start_step o db ∷ []) (
            db.workflow_status ++ forked_row now o (mapping now id new_id start_step o db) ws ∷ []))
        ≡ some enqueued
  unfolding get_workflow_status_value mark_forked forked_row find_row
  forked_status ws free =
      let row = forked_row now o (mapping now id new_id start_step o db) ws in
      let last = first-append_new (has_id new_id) db.workflow_status row free (same_refl new_id) in
      let at =
        find_row-update new_id
          (λ r.
            any_of (map (λ (m : Mapping). m.orig_id) (mapping now id new_id start_step o db ∷ []))
              r.workflow_uuid)
          (λ r. record r { was_forked_from = true }) (λ _. refl) (db.workflow_status ++ row ∷ []) in
      ground (arith, at, last)

  forked_free :
      (made : Option String) (db' : Db)
      → fork_workflow now id new_id start_step o db ≡ (ok made, db')
      → check_if_canceled new_id db'.workflow_status ≡ ok tt
  unfolding check_if_canceled copy_steps
  forked_free made db' h =
      let (ws, _, free, _, at) = fork_workflow-ok now id new_id start_step o db made db' h in
      let status = forked_status ws free in rw at (ground (arith, status))

  -- A fork that is made does not run again a step that its original had run before the first step
  -- to run: it returns the original's output, whoever runs it and with whatever function, and
  -- changes nothing.
  pub fork_workflow-replays :
      (made : Option String) (db' : Db)
      → fork_workflow now id new_id start_step o db ≡ (ok made, db')
      → (fn : ℕ) (name : String) (old : OperationOutput)
      → find_step new_id fn db.operation_outputs ≡ none
      → fn < start_step
      → find_step id fn db.operation_outputs ≡ some old
      → old.function_name ≡ some name
      → (executor : String) (started ended : ℕ) (func : Db → Result (Option String) × Db)
      → run_and_record_result executor started ended name new_id fn func db' ≡ (ok old.output, db')
  unfolding run_and_record_result get_operation_result_and_throw_if_cancelled moved_output
  fork_workflow-replays made db' h fn name old unused early found named executor started ended
        func =
      let (copied, _) = fork_workflow-steps now id new_id start_step o db made db' h fn unused in
      ground (arith, forked_free made db' h, copied, early, found, named, same_refl name)
