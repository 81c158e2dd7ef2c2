-- ===== src/SysDb/Steps/Replay.antt =====
-- Running a step once: `#runAndRecordResult` and `runTransactionalStep` against replay,
-- cancellation and failure.
use mathlib.Core.Option
use dbos_transact_ts.Common.{
  ℕ, String, Bool, true, Option, none, some, ◌≡◌, refl, arith, same_refl, column_is, Option-cases,
  inl, inr, List, ap, changed, not, ◌&&◌,
}
use dbos_transact_ts.SysDb.Schema.{Db, WorkflowStatus}
use dbos_transact_ts.SysDb.Rows.{has_id, find_row, find_row-update}
use dbos_transact_ts.SysDb.Result.{Result, ok, err, Fault}
use dbos_transact_ts.SysDb.Outcome.{check_if_canceled, get_workflow_status_value}
use dbos_transact_ts.SysDb.Steps.{
  find_step, record_operation_result, new_step, StepOptions, only_output, run_and_record_result,
  run_transactional_step, run_new_step, then_return, claim_executor,
}
use dbos_transact_ts.SysDb.Steps.Checkpoints.{find_step-record_operation_result}

-- Claiming the executor's mark changes no status.
pub get_workflow_status_value-claim_executor :
    (executor id k : String) (t : List WorkflowStatus)
    → get_workflow_status_value k (claim_executor executor id t) ≡ get_workflow_status_value k t
unfolding get_workflow_status_value claim_executor
get_workflow_status_value-claim_executor executor id k t = elim (Option-cases (find_row k t)) [
  | inl e ↦ ground (arith, e, at_key)
  | inr (r, e) ↦ ground (arith, e, at_key)
]
  where
    at_key :
        find_row k (claim_executor executor id t)
        ≡ Option.map
            (changed
              (λ r. has_id id r && not (column_is r.executor_id executor))
              (λ r. record r { executor_id = some executor }))
            (find_row k t)
    at_key =
        find_row-update k (λ r. has_id id r && not (column_is r.executor_id executor))
          (λ r. record r { executor_id = some executor }) (λ _. refl) t

-- Recording a checkpoint cancels nothing and revives nothing.
pub check_if_canceled-record_operation_result :
    (executor id : String) (fn : ℕ) (name : String) (check_conflict : Bool) (started ended : ℕ)
    (o : StepOptions) (db : Db) (k : String)
    → check_if_canceled k
        (record_operation_result executor id fn name check_conflict started ended o
          db).1.workflow_status
      ≡ check_if_canceled k db.workflow_status
unfolding record_operation_result check_if_canceled
check_if_canceled-record_operation_result executor id fn name check_conflict started ended o db k =
    ground (arith, get_workflow_status_value-claim_executor executor id k db.workflow_status)

pub then_return-ok {ℓ} :
    {A : Type ℓ} (a b : A) (r : Result (Unit {0}) × Db) (db : Db)
    → then_return a r ≡ (ok b, db)
    → (r ≡ (ok tt, db)) × (a ≡ b)
then_return-ok a b (ok _, db') db h = (cc, cc)
then_return-ok a b (err e, db') db h = cc

run_new_step-ok :
    (executor : String) (started ended : ℕ) (id : String) (fn : ℕ) (name : String)
    (x : Result (Option String) × Db) (output : Option String) (db : Db)
    → find_step id fn x.1.operation_outputs ≡ none
    → run_new_step executor started ended id fn name x ≡ (ok output, db)
    → find_step id fn db.operation_outputs
      ≡ some (new_step id fn name started ended (only_output output))
run_new_step-ok executor started ended id fn name (err e, y) output db free h = cc
run_new_step-ok executor started ended id fn name (ok out, y) output db free h =
    let (r, same_output) = then_return-ok out output _ db h in
    let found =
      find_step-record_operation_result executor id fn name true started ended (only_output out) y
        free (ap (λ (p : Result (Unit {0}) × Db). p.0) r) in
    cc found

module _ (executor : String) (started ended : ℕ) (name id : String) (fn : ℕ)
    (func : Db → Result (Option String) × Db) (db : Db) where
  pub run_and_record_result_ran :
      (output : Option String) (db' : Db)
      → run_and_record_result executor started ended name id fn func db ≡ (ok output, db')
      → find_step id fn db.operation_outputs ≡ none
      → run_new_step executor started ended id fn name (func db) ≡ (ok output, db')
  unfolding run_and_record_result
  run_and_record_result_ran output db' ran fresh = ground (arith, ran, fresh)

  -- Once a step without a checkpoint has run and returned, and its function has not itself
  -- recorded a checkpoint under its number, running the step again, by any executor, at any time
  -- and with any function in its place, returns the same output and changes nothing, unless the
  -- workflow is cancelled.
  pub run_and_record_result_once :
      (output : Option String) (db' : Db)
      → find_step id fn (func db).1.operation_outputs ≡ none
      → run_and_record_result executor started ended name id fn func db ≡ (ok output, db')
      → find_step id fn db.operation_outputs ≡ none
      → check_if_canceled id db'.workflow_status ≡ ok tt
      → (executor' : String) (started' ended' : ℕ) (func' : Db → Result (Option String) × Db)
      → run_and_record_result executor' started' ended' name id fn func' db' ≡ (ok output, db')
  unfolding run_and_record_result
  run_and_record_result_once output db' untouched ran fresh free executor' started' ended' func' =
      let found =
        run_new_step-ok executor started ended id fn name (func db) output db' untouched
          (run_and_record_result_ran output db' ran fresh) in
      ground (arith, free, found, same_refl name)

  -- A transactional step that throws leaves no trace.
  pub run_transactional_step_atomic :
      (e : Fault)
      → (run_transactional_step executor started ended id fn name func db).0 ≡ err e
      → (run_transactional_step executor started ended id fn name func db).1 ≡ db
  unfolding run_transactional_step
  run_transactional_step_atomic e h = ground arith
