-- ===== src/SysDb/Steps/Checkpoints.antt =====
-- Recording a checkpoint: the first one of a step stays.
use dbos_transact_ts.Common.{
  first-append_other, ℕ, String, Bool, true, none, some, List, [], ◌∷◌, ◌++◌, ◌≡◌, ◌≢◌, arith,
  first, same_refl,
}
use dbos_transact_ts.SysDb.Schema.{Db, OperationOutput}
use dbos_transact_ts.SysDb.Result.{Result, ok}
use dbos_transact_ts.SysDb.Steps.{
  find_step, is_step, record_operation_result, new_step, StepOptions,
}

-- Appending to a table does not change what is found.
pub first-append_kept {ℓ} :
    {A : Type ℓ} (p : A → Bool) (t u : List A) (r : A)
    → first p t ≡ some r
    → first p (t ++ u) ≡ some r
first-append_kept p [] u r h = cc
first-append_kept p (x ∷ t) u r h = ground (arith, first-append_kept p t u r)

pub first-append_new {ℓ} :
    {A : Type ℓ} (p : A → Bool) (t : List A) (r : A)
    → first p t ≡ none
    → p r ≡ true
    → first p (t ++ r ∷ []) ≡ some r
first-append_new p [] r h k = rw k
first-append_new p (x ∷ t) r h k = ground (arith, first-append_new p t r)

module _ (executor id : String) (fn : ℕ) (name : String) (check_conflict : Bool) (started ended : ℕ)
    (o : StepOptions) (db : Db) where
  abbrev recorded : Result (Unit {0}) × Db
  recorded = record_operation_result executor id fn name check_conflict started ended o db

  pub find_step-record_operation_result :
      find_step id fn db.operation_outputs ≡ none
      → (recorded.0 ≡ ok tt)
      → find_step id fn recorded.1.operation_outputs ≡ some (new_step id fn name started ended o)
  unfolding record_operation_result find_step
  find_step-record_operation_result free succeeded = ground (
    arith,
    first-append_new (is_step id fn) db.operation_outputs (new_step id fn name started ended o),
    same_refl id,
  )

  -- A checkpoint, once recorded, is never changed by recording any step of any workflow, whether
  -- that recording succeeds or throws.
  pub record_operation_result_keeps :
      (id' : String) (fn' : ℕ) (old : OperationOutput)
      → find_step id' fn' db.operation_outputs ≡ some old
      → find_step id' fn' recorded.1.operation_outputs ≡ some old
  unfolding record_operation_result find_step
  record_operation_result_keeps id' fn' old h = ground (
    arith,
    first-append_kept (is_step id' fn') db.operation_outputs
        (new_step id fn name started ended o ∷ []) old h,
  )

  -- A step of another number stays without a checkpoint.
  pub find_step-record_operation_result_other :
      (other : ℕ)
      → fn ≢ other
      → find_step id other db.operation_outputs ≡ none
      → find_step id other recorded.1.operation_outputs ≡ none
  unfolding record_operation_result find_step
  find_step-record_operation_result_other other apart free = ground (
    arith,
    free,
    apart,
    first-append_other (is_step id other) db.operation_outputs
        (new_step id fn name started ended o),
  )

  -- The tables of messages, events and streams stay as they are.
  pub record_operation_result_leaves :
      (recorded.1.notifications ≡ db.notifications)
      × (recorded.1.workflow_events ≡ db.workflow_events)
      × (recorded.1.workflow_events_history ≡ db.workflow_events_history)
      × (recorded.1.streams ≡ db.streams)
  unfolding record_operation_result
  record_operation_result_leaves = ground arith
