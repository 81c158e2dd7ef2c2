-- ===== src/SysDb/Init/Admission.antt =====
-- Whether a call of `initWorkflowStatus` makes this executor run the workflow.
use dbos_transact_ts.Common.{
  if◌then◌else◌, ℕ, suc, ◌+◌, String, true, false, Option, none, some, List, [], ◌∷◌, ◌++◌, ◌≡◌,
  ◌≢◌, refl, arith, same, same_column, same_refl, same_iff, ◌||◌, ◌≤◌, ◌<◌, first, is_some, or_else,
  update, inl, inr, Bool-cases,
}
use dbos_transact_ts.SysDb.Schema.{WorkflowStatus, pending, max_recovery_attempts_exceeded}
use dbos_transact_ts.SysDb.Rows.{has_id, find_row, find_row-update, find_row-id}
use dbos_transact_ts.SysDb.Result.{Fault, Result, ok, err, max_recovery_attempts}
use dbos_transact_ts.SysDb.Outcome.{no_update, anywhere, set_clause, where_clause}
use dbos_transact_ts.SysDb.Outcome.Completion.{find_row-update_workflow_status}
use dbos_transact_ts.SysDb.Manage.{clashes}
use dbos_transact_ts.SysDb.Init.{
  after_insert, InitStatus, InitOptions, new_row, merge_row, insert_workflow_status, admit,
  init_workflow_status, same_function, waiting, too_many, null_if_empty,
}

same_column_refl : (a : Option String) → same_column a a ≡ true
same_column_refl none = refl
same_column_refl (some s) = same_refl s

or_else-null_if_empty : (s : String) → same (or_else (null_if_empty s) "") s ≡ true
or_else-null_if_empty s = elim (Bool-cases (same s "")) [
  | inl e ↦ rw (e, (same_iff s "").0 e) (same_refl "")
  | inr e ↦ rw e (same_refl s)
]

-- A row that is made from a call has the call's function, class and configuration.
new_row-same_function :
    (now : ℕ) (i : InitStatus) (owner : Option String)
    → same_function i (new_row now i owner) ≡ true
unfolding new_row
new_row-same_function now i owner = rw (
  same_refl i.workflow_name,
  or_else-null_if_empty i.workflow_class_name,
  or_else-null_if_empty i.workflow_config_name,
)

module _ (now : ℕ) (i : InitStatus) (owner : Option String) (o : InitOptions)
    (t : List WorkflowStatus) where
  -- A workflow whose ID is new and that clashes with no deduplication ID is inserted as given, and
  -- its executor runs it, if the limit of attempts admits a first one.
  pub init_new :
      find_row i.workflow_uuid t ≡ none
      → is_some (first (clashes (new_row now i owner)) t) ≡ false
      → too_many o.max_retries (new_row now i owner).recovery_attempts ≡ false
      → init_workflow_status now i owner o t ≡ (
        ok (record {
          status = i.status;
          should_execute_on_this_executor = true;
          deadline_epoch_ms = i.deadline_epoch_ms;
          serialization = i.serialization;
        }),
        t ++ new_row now i owner ∷ [],
      )
  unfolding init_workflow_status insert_workflow_status admit
  init_new fresh unclashing few = ground (
    arith,
    fresh,
    unclashing,
    few,
    new_row-same_function now i owner,
    same_column_refl owner,
    new_row_columns,
  )
    where
      new_row_columns :
          ((new_row now i owner).status ≡ i.status)
          × ((new_row now i owner).owner_xid ≡ owner)
          × ((new_row now i owner).workflow_deadline_epoch_ms ≡ i.deadline_epoch_ms)
          × ((new_row now i owner).serialization ≡ i.serialization)
      new_row_columns = unfold new_row in (refl, refl, refl, refl)

  -- A call that throws leaves the table as it was, unless what it throws is that the workflow has
  -- exceeded its attempts.
  pub init_refused :
      (e : Fault)
      → (init_workflow_status now i owner o t).0 ≡ err e
      → e ≢ max_recovery_attempts i.workflow_uuid o.max_retries
      → (init_workflow_status now i owner o t).1 ≡ t
  unfolding init_workflow_status after_insert admit
  init_refused e thrown other =
      refused
        (insert_workflow_status now i owner (o.is_recovery_request || o.is_dequeued_request) t).1
        (insert_workflow_status now i owner (o.is_recovery_request || o.is_dequeued_request) t).0
        thrown
    where
      refused :
          (t' : List WorkflowStatus) (res : Result WorkflowStatus)
          → (after_insert now i owner o t t' res).0 ≡ err e
          → (after_insert now i owner o t t' res).1 ≡ t
      refused t' (err e') h = refl
      refused t' (ok row) h = elim (Bool-cases (same_function i row)) [
        | inr clash ↦ ground (arith, clash)
        | inl fits ↦ ground (arith, fits, h, other)
      ]

  abbrev attempted_row : WorkflowStatus → WorkflowStatus
  attempted_row = merge_row now i true

  module _ (r : WorkflowStatus) (found : find_row i.workflow_uuid t ≡ some r) where
    -- Starting a workflow that another call has started under the same function, with no recovery
    -- or dequeue, changes nothing and does not run it, unless it was given up.
    pub init_existing :
        same_function i r ≡ true
        → same_column owner r.owner_xid ≡ false
        → o.is_recovery_request ≡ false
        → o.is_dequeued_request ≡ false
        → r.status ≢ max_recovery_attempts_exceeded
        → init_workflow_status now i owner o t ≡ (
          ok (record {
            status = r.status;
            should_execute_on_this_executor = false;
            deadline_epoch_ms = r.workflow_deadline_epoch_ms;
            serialization = r.serialization;
          }),
          t,
        )
    unfolding init_workflow_status insert_workflow_status merge_row admit
    init_existing fits other no_recovery no_dequeue tries =
        ground (arith, found, fits, other, no_recovery, no_dequeue)

    -- The row after one more attempt.
    abbrev attempted : WorkflowStatus
    attempted = merge_row now i true r

    -- Recovering or dequeuing a claimed workflow counts an attempt. Up to `n + 1` attempts before this
    -- one, for a limit of `n`, the workflow runs here; its row has the attempt and this executor.
    pub init_attempt :
        (n : ℕ)
        → same_function i r ≡ true
        → o.is_recovery_request || o.is_dequeued_request ≡ true
        → waiting r.status ≡ false
        → o.max_retries ≡ some (suc n)
        → r.recovery_attempts ≤ suc n
        → (init_workflow_status now i owner o t ≡ (
          ok (record {
            status = r.status;
            should_execute_on_this_executor = true;
            deadline_epoch_ms = r.workflow_deadline_epoch_ms;
            serialization = r.serialization;
          }),
          update (has_id i.workflow_uuid) attempted_row t,
        ))
          × (attempted.recovery_attempts ≡ r.recovery_attempts + 1)
    unfolding init_workflow_status insert_workflow_status merge_row admit
    init_attempt n fits again claimed limit few = ground (arith, found, fits, again, claimed, limit)

    -- A recovery or a dequeue of a pending workflow, under the same function and with a limit of
    -- retries above zero, gives it up where its row has more attempts than the limit already: the
    -- call throws, and the row is left as exceeding its attempts, with the attempt counted and
    -- without its deduplication ID.
    pub init_give_up :
        (n : ℕ)
        → same_function i r ≡ true
        → o.is_recovery_request || o.is_dequeued_request ≡ true
        → r.status ≡ pending
        → o.max_retries ≡ some (suc n)
        → suc n < r.recovery_attempts
        → ((init_workflow_status now i owner o t).0
            ≡ err (max_recovery_attempts i.workflow_uuid o.max_retries))
          × (find_row i.workflow_uuid (init_workflow_status now i owner o t).1
              ≡ some (record r {
                status = max_recovery_attempts_exceeded;
                recovery_attempts = r.recovery_attempts + 1;
                deduplication_id = none;
                updated_at = now;
                executor_id = if waiting i.status then r.executor_id else some i.executor_id;
              }))
    unfolding init_workflow_status insert_workflow_status merge_row admit where_clause set_clause
    init_give_up n fits again is_pending limit many = ground (
      arith,
      found,
      fits,
      again,
      is_pending,
      limit,
      find_row-id i.workflow_uuid t r found,
      find_row-update i.workflow_uuid (has_id i.workflow_uuid) attempted_row (λ _. refl) t,
      find_row-update_workflow_status now i.workflow_uuid max_recovery_attempts_exceeded
          (record no_update { reset_deduplication_id = true })
          (record anywhere { status = some pending }) false i.workflow_uuid
          (update (has_id i.workflow_uuid) attempted_row t),
    )
