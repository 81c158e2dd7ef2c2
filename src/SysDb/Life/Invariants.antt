-- ===== src/SysDb/Life/Invariants.antt =====
-- What the statements do to a table, for a property of tables: they update rows without touching the
-- keys or taking a deduplication ID, insert a row that is new and clashes with none, or requeue rows
-- for recovery under the check of the index.
use dbos_transact_ts.Common.{
  arith, ℕ, ◌+◌, String, Bool, false, not, ◌&&◌, Option, none, List, [], ◌∷◌, ◌++◌, ◌≡◌, refl,
  count, first, is_some, update, inl, inr, Bool-cases, Option-cases, ltb, length, same_column,
}
use dbos_transact_ts.Queue.Params.{WorkflowQueue}
use dbos_transact_ts.SysDb.Schema.{WorkflowStatus, Status}
use dbos_transact_ts.SysDb.Rows.{has_id, find_row, KeepsId}
use dbos_transact_ts.SysDb.Result.{Result, ok, err}
use dbos_transact_ts.SysDb.Outcome.{
  Update, Where, update_workflow_status, set_clause, where_clause, record_workflow_outcome,
  record_workflow_output, record_workflow_error,
}
use dbos_transact_ts.SysDb.Manage.{
  cancel_workflows, resume_workflows, set_workflow_priority, set_workflow_delay, breaks_unique,
  transition_delayed_workflows, reenqueue_workflows_for_recovery, clashes, reenqueued, recoverable,
}
use dbos_transact_ts.SysDb.Init.{
  InitStatus, InitOptions, init_workflow_status, insert_workflow_status, admit, merge_row, new_row,
  same_function, after_insert, too_many,
}
use dbos_transact_ts.SysDb.Dequeue.{Env, claim, claimable, mark_started, push_if, limit_reached}
use dbos_transact_ts.SysDb.Dequeue.Claims.{dequeue_cases}
use dbos_transact_ts.SysDb.Life.Deduplication.{Loosens}
use dbos_transact_ts.SysDb.Batch.{insert_batch, batch_row}
use dbos_transact_ts.SysDb.Batch.Redelivery.{enqueue_workflows_cases}
use dbos_transact_ts.SysDb.Debounce.{bounces, bounced}
use dbos_transact_ts.SysDb.Debounce.Bounce.{debounced_table}
use dbos_transact_ts.SysDb.Life.{
  batches, debounces, Op, starts, finishes, fails, cancels, resumes, prioritises, delays, wakes,
  recovers, dequeues, apply, run,
}

-- A row of a batch has no deduplication ID.
batch_row_unclashing :
    (i : InitStatus) (n : ℕ) (t : List WorkflowStatus)
    → is_some (first (clashes (batch_row i n)) t) ≡ false
unfolding batch_row
batch_row_unclashing i n [] = refl
batch_row_unclashing i n (s ∷ t) = ground (arith, batch_row_unclashing i n t)

module _ (P : List WorkflowStatus → Type 0)
    (on_update : (q : WorkflowStatus → Bool) (f : WorkflowStatus → WorkflowStatus)
      → KeepsId f
      → ((r : WorkflowStatus) → Loosens r (f r))
      → (t : List WorkflowStatus) → P t
      → P (update q f t))
    (on_insert : (r : WorkflowStatus) (t : List WorkflowStatus)
      → find_row r.workflow_uuid t ≡ none
      → is_some (first (clashes r) t) ≡ false
      → P t
      → P (t ++ r ∷ []))
    (on_recovery : (q : WorkflowStatus → Bool) (f : WorkflowStatus → WorkflowStatus)
      → KeepsId f
      → (t : List WorkflowStatus) → breaks_unique (update q f t) ≡ false
      → P t
      → P (update q f t)) where
  claim_keeps :
      (q : WorkflowQueue) (env : Env) (n : ℕ) (ids claimed : List String) (t : List WorkflowStatus)
      → P t
      → P (claim q env n ids claimed t).1
  unfolding claim
  claim_keeps q env n [] claimed t h = h
  claim_keeps q env n (id ∷ ids) claimed t h =
      elim (Bool-cases (limit_reached q.rate_limit (length claimed + n))) [
        | inl full ↦ rw full h
        | inr left ↦ rw left (
            claim_keeps q env n ids (push_if (ltb 0 (count (claimable id) t)) claimed id)
              (update (claimable id) (mark_started q env) t)
              (on_update (claimable id) (mark_started q env) (λ _. refl) (λ _. inl (refl, refl)) t
                h))
      ]

  update_workflow_status_keeps :
      (now : ℕ) (id : String) (s : Status) (u : Update) (w : Where) (throws : Bool)
      (t : List WorkflowStatus)
      → u.queue_name ≡ none
      → P t
      → P (update_workflow_status now id s u w throws t).1
  unfolding update_workflow_status set_clause
  update_workflow_status_keeps now id s u w throws t kept h =
      on_update (where_clause id w) (set_clause now s u) (λ _. refl) loosens t h
    where
      loosens : (r : WorkflowStatus) → Loosens r (set_clause now s u r)
      loosens r = elim (Bool-cases u.reset_deduplication_id) [
        | inl e ↦ inr (rw e refl)
        | inr e ↦ inl (rw kept refl, rw e refl)
      ]

  insert_workflow_status_keeps :
      (now : ℕ) (i : InitStatus) (owner : Option String) (increment : Bool)
      (t : List WorkflowStatus)
      → P t
      → P (insert_workflow_status now i owner increment t).1
  unfolding insert_workflow_status
  insert_workflow_status_keeps now i owner increment t h =
      elim (Option-cases (find_row i.workflow_uuid t)) [
        | inl new ↦ elim (Bool-cases (is_some (first (clashes (new_row now i owner)) t))) [
          | inl clash ↦ rw (new, clash, insert_workflow_status) h
          | inr fine ↦
              rw (new, fine, insert_workflow_status)
                (on_insert (new_row now i owner) t (unfold new_row in new) fine h)
        ]
        | inr (r0, old) ↦
            rw (old, insert_workflow_status)
              (unfold merge_row in
                on_update (has_id i.workflow_uuid) (merge_row now i increment) (λ _. refl)
                  (λ _. inl (refl, refl)) t h)
      ]

  admit_keeps :
      (now : ℕ) (i : InitStatus) (owner : Option String) (o : InitOptions) (row : WorkflowStatus)
      (t t' : List WorkflowStatus)
      → P t
      → P t'
      → P (admit now i owner o row t t').1
  unfolding admit
  admit_keeps now i owner o row t t' h h' =
      elim (Bool-cases (
        not (same_column owner row.owner_xid)
        && not o.is_recovery_request
        && not o.is_dequeued_request)) [
          | inl other ↦ rw (other, admit) h
          | inr ours ↦ elim (Bool-cases (too_many o.max_retries row.recovery_attempts)) [
            | inl many ↦
                rw (ours, many, admit) (update_workflow_status_keeps _ _ _ _ _ _ t' refl h')
            | inr few ↦ rw (ours, few, admit) h'
          ]
        ]

  after_insert_keeps :
      (now : ℕ) (i : InitStatus) (owner : Option String) (o : InitOptions)
      (t t' : List WorkflowStatus)
      → P t
      → P t'
      → (res : Result WorkflowStatus) → P (after_insert now i owner o t t' res).1
  unfolding after_insert
  after_insert_keeps now i owner o t t' h h' (err e) = h
  after_insert_keeps now i owner o t t' h h' (ok row) = elim (Bool-cases (same_function i row)) [
    | inl fits ↦ rw fits (admit_keeps now i owner o row t t' h h')
    | inr clash ↦ rw clash h
  ]

  reenqueue_keeps :
      (now : ℕ) (executor version queue : String) (t : List WorkflowStatus)
      → P t
      → P (reenqueue_workflows_for_recovery now executor version queue t).1
  unfolding reenqueue_workflows_for_recovery
  reenqueue_keeps now executor version queue t h =
      let t' = update (recoverable executor version) (reenqueued now queue) t in
      elim (Bool-cases (breaks_unique t')) [
        | inl clash ↦ rw clash h
        | inr fine ↦
            rw fine (
              on_recovery (recoverable executor version) (reenqueued now queue) (λ _. refl) t fine
                h)
      ]

  moved : (t t' : List WorkflowStatus) → t ≡ t' → P t' → P t
  moved t t' e h = rw e h

  insert_batch_keeps :
      (is : List InitStatus) (times : List ℕ) (t : List WorkflowStatus)
      → P t
      → P (insert_batch is times t).1
  unfolding insert_batch
  insert_batch_keeps [] times t h = h
  insert_batch_keeps (i ∷ is) [] t h = h
  insert_batch_keeps (i ∷ is) (n ∷ times) t h = elim (Option-cases (find_row i.workflow_uuid t)) [
    | inr (old, e) ↦
        moved (insert_batch (i ∷ is) (n ∷ times) t).1 (insert_batch is times t).1
          (ground (arith, e)) (insert_batch_keeps is times t h)
    | inl fresh ↦
        let t' = t ++ batch_row i n ∷ [] in
        moved (insert_batch (i ∷ is) (n ∷ times) t).1 (insert_batch is times t').1
          (ground (arith, fresh))
          (insert_batch_keeps is times t' (
            on_insert (batch_row i n) t (unfold batch_row in fresh) (batch_row_unclashing i n t) h))
  ]

  -- Every statement keeps the property.
  pub apply_keeps : (op : Op) (t : List WorkflowStatus) → P t → P (apply op t)
  unfolding apply init_workflow_status record_workflow_output record_workflow_error
      record_workflow_outcome cancel_workflows resume_workflows set_workflow_priority
      set_workflow_delay transition_delayed_workflows
  apply_keeps (starts now i owner o) t h =
      after_insert_keeps now i owner o t _ h (insert_workflow_status_keeps now i owner _ t h) _
  apply_keeps (finishes now id output) t h = update_workflow_status_keeps _ _ _ _ _ _ t refl h
  apply_keeps (fails now id e) t h = update_workflow_status_keeps _ _ _ _ _ _ t refl h
  apply_keeps (cancels now ids) t h = on_update _ _ (λ _. refl) (λ _. inr refl) t h
  apply_keeps (resumes now ids queue) t h = on_update _ _ (λ _. refl) (λ _. inr refl) t h
  apply_keeps (prioritises now id p) t h = on_update _ _ (λ _. refl) (λ _. inl (refl, refl)) t h
  apply_keeps (delays now id until) t h = on_update _ _ (λ _. refl) (λ _. inl (refl, refl)) t h
  apply_keeps (wakes now) t h =
      on_update _ _ (λ _. refl)
        (λ r. elim (Bool-cases r.is_debounced) [
          | inl e ↦ inr (rw e refl)
          | inr e ↦ inl (refl, rw e refl)
        ])
        t h
  apply_keeps (recovers now executor version queue) t h =
      reenqueue_keeps now executor version queue t h
  apply_keeps (batches now is c) t h =
      enqueue_workflows_cases P now is t c h (λ times. insert_batch_keeps is times t h)
  apply_keeps (debounces now p) t h =
      rw (debounced_table now p t)
        (on_update (bounces p) (bounced now p) (λ _. refl) (λ _. inl (refl, refl)) t h)
  apply_keeps (dequeues q p env) t h =
      dequeue_cases (λ x. P x.1) q p env t h (λ _. h) (λ rows _ _. claim_keeps q env _ _ [] t h)

  pub run_keeps : (ops : List Op) (t : List WorkflowStatus) → P t → P (run ops t)
  unfolding run
  run_keeps [] t h = h
  run_keeps (op ∷ ops) t h = run_keeps ops (apply op t) (apply_keeps op t h)
