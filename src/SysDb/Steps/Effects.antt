-- ===== src/SysDb/Steps/Effects.antt =====
-- What a step that has run leaves in the tables other than `operation_outputs`: the work of its
-- function, and nothing more.
use dbos_transact_ts.Common.{ℕ, String, true, Option, none, ◌≡◌, refl, ap, sym, ◌∙◌}
use dbos_transact_ts.SysDb.Schema.{Db}
use dbos_transact_ts.SysDb.Result.{Result, ok, err}
use dbos_transact_ts.SysDb.Steps.{
  find_step, run_new_step, run_and_record_result, only_output, rollback, no_output,
}
use dbos_transact_ts.SysDb.Steps.Checkpoints.{record_operation_result_leaves}
use dbos_transact_ts.SysDb.Steps.Replay.{then_return-ok, run_and_record_result_ran}

pub rollback-ok {ℓ} :
    {A : Type ℓ} (a : A) (db db' : Db) (x : Result A × Db)
    → rollback db x ≡ (ok a, db')
    → x ≡ (ok a, db')
rollback-ok a db db' (err e, d) h = cc
rollback-ok a db db' (ok b, d) h = h

pub no_output-ok :
    (x : Result (Unit {0}) × Db) (o : Option String)
    → (no_output x).0 ≡ ok o
    → (x.0 ≡ ok tt) × ((no_output x).1 ≡ x.1)
no_output-ok (err e, d) o h = cc
no_output-ok (ok _, d) o h = (refl, refl)

-- The tables of messages, events and streams are the same.
abbrev pub SameComms : Db → Db → Type 0
SameComms d d' =
    (d'.notifications ≡ d.notifications)
    × (d'.workflow_events ≡ d.workflow_events)
    × (d'.workflow_events_history ≡ d.workflow_events_history)
    × (d'.streams ≡ d.streams)

module _ (executor : String) (started ended : ℕ) (name id : String) (fn : ℕ) where
  run_new_step-SameComms :
      (x : Result (Option String) × Db) (output : Option String) (db' : Db)
      → run_new_step executor started ended id fn name x ≡ (ok output, db')
      → (x.0 ≡ ok output) × SameComms x.1 db'
  run_new_step-SameComms (err e, d) output db' h = cc
  run_new_step-SameComms (ok out, d) output db' h =
      let (recorded, same) = then_return-ok out output _ db' h in
      let leaves =
        record_operation_result_leaves executor id fn name true started ended (only_output out) d in
      let at = ap (λ (p : Result (Unit {0}) × Db). p.1) (sym recorded) in
      (
        ap (λ (o : Option String). ok o) same,
        (
          ap (λ (d : Db). d.notifications) at ∙ leaves.0,
          ap (λ (d : Db). d.workflow_events) at ∙ leaves.1,
          ap (λ (d : Db). d.workflow_events_history) at ∙ leaves.2,
          ap (λ (d : Db). d.streams) at ∙ leaves.3,
        ),
      )

  pub run_and_record_result-SameComms :
      (func : Db → Result (Option String) × Db) (db : Db) (output : Option String) (db' : Db)
      → rollback db (run_and_record_result executor started ended name id fn func db)
        ≡ (ok output, db')
      → find_step id fn db.operation_outputs ≡ none
      → ((func db).0 ≡ ok output) × SameComms (func db).1 db'
  run_and_record_result-SameComms func db output db' ran fresh =
      run_new_step-SameComms (func db) output db' (
        run_and_record_result_ran executor started ended name id fn func db output db'
          (rollback-ok output db db' _ ran) fresh)
