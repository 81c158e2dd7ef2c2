-- ===== src/SysDb/Life/Steps.antt =====
-- Each statement moves the status of a workflow only as its `Allowed` says.
use dbos_transact_ts.Common.{
  ℕ, String, Bool, Option, some, List, ◌≡◌, inl, inr, refl, ap, any_of, same, same_sym, same_iff,
  arith, update, changed, Bool-cases,
}
use dbos_transact_ts.SysDb.Schema.{Status, WorkflowStatus}
use dbos_transact_ts.SysDb.Rows.{find_row, find_row-update, find_row-id, KeepsId}
use dbos_transact_ts.SysDb.Outcome.{
  record_workflow_output, record_workflow_error, update_workflow_status,
}
use dbos_transact_ts.SysDb.Manage.{
  cancel_workflows, resume_workflows, set_workflow_priority, set_workflow_delay,
  transition_delayed_workflows, reenqueue_workflows_for_recovery, recoverable, breaks_unique,
  reenqueued,
}
use dbos_transact_ts.SysDb.Init.{InitStatus}
use dbos_transact_ts.SysDb.Batch.{Cursors, enqueue_workflows}
use dbos_transact_ts.SysDb.Batch.Redelivery.{enqueue_workflows_cases, find_row-insert_batch}
use dbos_transact_ts.SysDb.Debounce.{DebounceParams, debounce_delayed_workflow, bounces, bounced}
use dbos_transact_ts.SysDb.Debounce.Bounce.{debounced_table}
use dbos_transact_ts.SysDb.Life.{
  batches, debounces, finishes, fails, cancels, resumes, prioritises, delays, wakes, recovers,
  Allowed, Follows,
}

-- An `UPDATE` that keeps the keys and the functions, and moves the statuses that it changes by `R`.
pub update-Follows :
    (R : Status → Status → Type 0) (q : WorkflowStatus → Bool) (f : WorkflowStatus → WorkflowStatus)
    (k : String) (r : WorkflowStatus) (t : List WorkflowStatus)
    → KeepsId f
    → find_row k t ≡ some r
    → R r.status (changed q f r).status
    → ((changed q f r).name ≡ r.name) × ((changed q f r).class_name ≡ r.class_name)
    → Follows R k r (update q f t)
update-Follows R q f k r t keeps found moves (same_name, same_class) =
    (changed q f r, rw (find_row-update k q f keeps t, found), moves, same_name, same_class)

-- A statement that does nothing.
pub unchanged-Follows :
    (R : Status → Status → Type 0) (k : String) (r : WorkflowStatus) (t : List WorkflowStatus)
    → find_row k t ≡ some r
    → R r.status r.status
    → Follows R k r t
unchanged-Follows R k r t found stays = (r, found, stays, refl, refl)

module _ (k : String) (r : WorkflowStatus) (t : List WorkflowStatus)
    (found : find_row k t ≡ some r) where
  pub key : r.workflow_uuid ≡ k
  key = (same_iff r.workflow_uuid k).0 (find_row-id k t r found)

  pub cancels-Follows :
      (now : ℕ) (ids : List String)
      → Follows (Allowed (cancels now ids) k) k r (cancel_workflows now ids t)
  unfolding cancel_workflows
  cancels-Follows now ids =
      update-Follows (Allowed (cancels now ids) k) _ _ k r t (λ _. refl) found
        (ground (arith, ap (any_of ids) key)) (ground arith)

  pub resumes-Follows :
      (now : ℕ) (ids : List String) (queue : Option String)
      → Follows (Allowed (resumes now ids queue) k) k r (resume_workflows now ids queue t)
  unfolding resume_workflows
  resumes-Follows now ids queue =
      update-Follows (Allowed (resumes now ids queue) k) _ _ k r t (λ _. refl) found
        (ground (arith, ap (any_of ids) key)) (ground arith)

  pub prioritises-Follows :
      (now : ℕ) (id : String) (priority : ℕ)
      → Follows
          (Allowed (prioritises now id priority) k)
          k
          r
          (set_workflow_priority now id priority t)
  unfolding set_workflow_priority
  prioritises-Follows now id priority =
      update-Follows (Allowed (prioritises now id priority) k) _ _ k r t (λ _. refl) found
        (ground arith) (ground arith)

  pub delays-Follows :
      (now : ℕ) (id : String) (until : ℕ)
      → Follows (Allowed (delays now id until) k) k r (set_workflow_delay now id until t)
  unfolding set_workflow_delay
  delays-Follows now id until =
      update-Follows (Allowed (delays now id until) k) _ _ k r t (λ _. refl) found (ground arith)
        (ground arith)

  pub wakes-Follows :
      (now : ℕ) → Follows (Allowed (wakes now) k) k r (transition_delayed_workflows now t)
  unfolding transition_delayed_workflows
  wakes-Follows now =
      update-Follows (Allowed (wakes now) k) _ _ k r t (λ _. refl) found (ground arith)
        (ground arith)

  pub recovers-Follows :
      (now : ℕ) (executor version queue : String)
      → Follows
          (Allowed (recovers now executor version queue) k)
          k
          r
          (reenqueue_workflows_for_recovery now executor version queue t).1
  unfolding reenqueue_workflows_for_recovery
  recovers-Follows now executor version queue =
      elim (Bool-cases
        (breaks_unique (update (recoverable executor version) (reenqueued now queue) t))) [
          | inl clash ↦
              rw (clash, reenqueue_workflows_for_recovery)
                (unchanged-Follows (Allowed (recovers now executor version queue) k) k r t found
                  (inl refl))
          | inr fine ↦
              rw (fine, reenqueue_workflows_for_recovery)
                (update-Follows (Allowed (recovers now executor version queue) k) _ _ k r t
                  (λ _. refl) found (ground arith) (ground arith))
        ]

  pub finishes-Follows :
      (now : ℕ) (id : String) (output : Option String)
      → Follows (Allowed (finishes now id output) k) k r (record_workflow_output now id output t).1
  unfolding record_workflow_output update_workflow_status
  finishes-Follows now id output =
      update-Follows (Allowed (finishes now id output) k) _ _ k r t (λ _. refl) found
        (ground (arith, ap (same id) key, same_sym r.workflow_uuid id)) (ground arith)

  pub fails-Follows :
      (now : ℕ) (id : String) (error_text : Option String)
      → Follows
          (Allowed (fails now id error_text) k)
          k
          r
          (record_workflow_error now id error_text t).1
  unfolding record_workflow_error update_workflow_status
  fails-Follows now id error_text =
      update-Follows (Allowed (fails now id error_text) k) _ _ k r t (λ _. refl) found
        (ground (arith, ap (same id) key, same_sym r.workflow_uuid id)) (ground arith)

  pub batches-Follows :
      (now : ℕ) (is : List InitStatus) (c : Cursors)
      → Follows (Allowed (batches now is c) k) k r (enqueue_workflows now is t c).1
  batches-Follows now is c =
      enqueue_workflows_cases (Follows (Allowed (batches now is c) k) k r) now is t c
        (unchanged-Follows (Allowed (batches now is c) k) k r t found refl)
        (λ times.
          unchanged-Follows (Allowed (batches now is c) k) k r _
            (find_row-insert_batch k r is times t found) refl)

  pub debounces-Follows :
      (now : ℕ) (p : DebounceParams)
      → Follows (Allowed (debounces now p) k) k r (debounce_delayed_workflow now p t).1
  debounces-Follows now p = rw (debounced_table now p t) (
      update-Follows (Allowed (debounces now p) k) (bounces p) (bounced now p) k r t (λ _. refl)
        found (ground arith) (ground arith))
