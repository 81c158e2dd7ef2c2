-- ===== src/SysDb/Manage/Recovery.antt =====
-- What the recovery of an executor leaves behind.
use dbos_transact_ts.Common.{
  ℕ, String, List, [], ◌∷◌, ◌≡◌, refl, arith, ap, map, select, update, Bool-cases, inl, inr,
}
use dbos_transact_ts.SysDb.Schema.{WorkflowStatus}
use dbos_transact_ts.SysDb.Result.{ok}
use dbos_transact_ts.SysDb.Manage.{
  recoverable, reenqueued, get_pending_workflows, reenqueue_workflows_for_recovery, breaks_unique,
}

none_left :
    (executor version queue : String) (now : ℕ) (t : List WorkflowStatus)
    → select
        (recoverable executor version)
        (update (recoverable executor version) (reenqueued now queue) t)
      ≡ []
none_left executor version queue now [] = refl
none_left executor version queue now (r ∷ t) = elim (Bool-cases (recoverable executor version r)) [
  | inl e ↦ ground (arith, e, none_left executor version queue now t)
  | inr e ↦ ground (arith, e, none_left executor version queue now t)
]

module _ (now : ℕ) (executor version queue : String) (t : List WorkflowStatus) (ids : List String)
    (recovered : (reenqueue_workflows_for_recovery now executor version queue t).0 ≡ ok ids) where
  recovered_table :
      ((reenqueue_workflows_for_recovery now executor version queue t).1
        ≡ update (recoverable executor version) (reenqueued now queue) t)
      × (ids ≡ get_pending_workflows executor version t)
  unfolding reenqueue_workflows_for_recovery get_pending_workflows
  recovered_table =
      let t' = update (recoverable executor version) (reenqueued now queue) t in
      elim (Bool-cases (breaks_unique t')) [
        | inl clash ↦ absurd (ground (arith, clash, recovered))
        | inr fine ↦ ground (arith, fine, recovered)
      ]

  -- A recovery that succeeds returns the pending workflows of the executor and version, and leaves it
  -- none; a second recovery finds nothing to do.
  pub reenqueue_workflows_for_recovery_complete :
      (ids ≡ get_pending_workflows executor version t)
      × (get_pending_workflows executor version
            (reenqueue_workflows_for_recovery now executor version queue t).1
          ≡ [])
  unfolding get_pending_workflows
  reenqueue_workflows_for_recovery_complete = (
    recovered_table.1,
    rw recovered_table.0 (
        ap (λ (rows : List WorkflowStatus). map (λ r. r.workflow_uuid) rows)
          (none_left executor version queue now t)),
  )
