-- ===== src/SysDb/Life/Starts.antt =====
-- Starting and dequeuing a workflow move statuses only as `Allowed` says.
use dbos_transact_ts.Common.{
  ap, same, same_sym, true, ◌∙◌, ◌+◌, ℕ, String, Bool, false, not, ◌&&◌, ◌||◌, Option, some, List,
  [], ◌∷◌, ◌++◌, ◌≡◌, ◌⊎◌, inl, inr, refl, same_column, arith, update, Option-cases, Bool-cases,
  ltb, count, length, first, is_some,
}
use dbos_transact_ts.Queue.Params.{WorkflowQueue}
use dbos_transact_ts.SysDb.Schema.{
  Status, WorkflowStatus, pending, enqueued, max_recovery_attempts_exceeded,
}
use dbos_transact_ts.SysDb.Rows.{has_id, find_row}
use dbos_transact_ts.SysDb.Result.{Result, ok, err}
use dbos_transact_ts.SysDb.Outcome.{set_clause, where_clause, update_workflow_status}
use dbos_transact_ts.SysDb.Manage.{clashes}
use dbos_transact_ts.SysDb.Init.{
  InitStatus, InitOptions, init_workflow_status, insert_workflow_status, admit, merge_row, new_row,
  same_function, after_insert, too_many,
}
use dbos_transact_ts.SysDb.Dequeue.{
  Env, find_and_mark_startable_workflows, claim, claimable, mark_started, push_if, limit_reached,
}
use dbos_transact_ts.SysDb.Dequeue.Claims.{dequeue_cases}
use dbos_transact_ts.SysDb.Life.Steps.{update-Follows, unchanged-Follows, key}
use dbos_transact_ts.SysDb.Steps.Checkpoints.{first-append_kept}
use dbos_transact_ts.SysDb.Life.{starts, dequeues, Allowed, Follows}

abbrev Started : Status → Status → Type 0
Started s s' = (s' ≡ s) ⊎ ((s ≡ enqueued) × (s' ≡ pending))

Started-trans : (s s' s'' : Status) → Started s s' → Started s' s'' → Started s s''
Started-trans s s' s'' (inl e) h = ground (arith, e, h)
Started-trans s s' s'' (inr (e, e')) (inl f) = inr (e, f ∙ e')
Started-trans s s' s'' (inr (e, e')) (inr (f, f')) = cc

-- A move from the moved row is a move from the row.
Follows-trans :
    (k : String) (r r' : WorkflowStatus) (t : List WorkflowStatus)
    → Started r.status r'.status
    → (r'.name ≡ r.name) × (r'.class_name ≡ r.class_name)
    → Follows Started k r' t
    → Follows Started k r t
Follows-trans k r r' t first_move (n, c) (r'', found, moves, n', c') =
    (r'', found, Started-trans r.status r'.status r''.status first_move moves, n' ∙ n, c' ∙ c)

claim-Follows :
    (q : WorkflowQueue) (env : Env) (n : ℕ) (k : String) (ids claimed : List String)
    (r : WorkflowStatus) (t : List WorkflowStatus)
    → find_row k t ≡ some r
    → Follows Started k r (claim q env n ids claimed t).1
unfolding claim
claim-Follows q env n k [] claimed r t found = unchanged-Follows Started k r t found (inl refl)
claim-Follows q env n k (id ∷ ids) claimed r t found =
    elim (Bool-cases (limit_reached q.rate_limit (length claimed + n))) [
      | inl full ↦ rw full (unchanged-Follows Started k r t found (inl refl))
      | inr left ↦
          let (r', found', moves, n', c') =
            update-Follows Started (claimable id) (mark_started q env) k r t (λ _. refl) found
              (ground arith) (ground arith) in
          rw left (
            Follows-trans k r r' _ moves (n', c')
              (claim-Follows q env n k ids (push_if (ltb 0 (count (claimable id) t)) claimed id) r'
                (update (claimable id) (mark_started q env) t) found'))
    ]

pub dequeues-Follows :
    (k : String) (r : WorkflowStatus) (t : List WorkflowStatus)
    → find_row k t ≡ some r
    → (q : WorkflowQueue) (p : Option String) (env : Env)
    → Follows (Allowed (dequeues q p env) k) k r (find_and_mark_startable_workflows q p env t).1
dequeues-Follows k r t found q p env =
    dequeue_cases (λ x. Follows Started k r x.1) q p env t
      (unchanged-Follows Started k r t found (inl refl))
      (λ _. unchanged-Follows Started k r t found (inl refl))
      (λ rows _ _. claim-Follows q env _ k _ [] r t found)

abbrev Same : Status → Status → Type 0
Same s s' = s' ≡ s

abbrev GivesUp : InitStatus → String → Status → Status → Type 0
GivesUp i k s s' =
    (s' ≡ s)
    ⊎ ((same i.workflow_uuid k ≡ true) × (s ≡ pending) × (s' ≡ max_recovery_attempts_exceeded))

insert-Follows :
    (now : ℕ) (i : InitStatus) (owner : Option String) (increment : Bool) (k : String)
    (r : WorkflowStatus) (t : List WorkflowStatus)
    → find_row k t ≡ some r
    → Follows Same k r (insert_workflow_status now i owner increment t).1
unfolding insert_workflow_status
insert-Follows now i owner increment k r t found =
    elim (Option-cases (find_row i.workflow_uuid t)) [
      | inl new ↦ elim (Bool-cases (is_some (first (clashes (new_row now i owner)) t))) [
        | inl clash ↦
            rw (new, clash, insert_workflow_status) (unchanged-Follows Same k r t found refl)
        | inr fine ↦
            rw (new, fine, insert_workflow_status)
              (unchanged-Follows Same k r _ (appended fine) refl)
      ]
      | inr (r0, old) ↦
          rw (old, insert_workflow_status)
            (unfold merge_row in
              update-Follows Same (has_id i.workflow_uuid) (merge_row now i increment) k r t
                (λ _. refl) found (ground arith) (ground arith))
    ]
  where
    appended :
        is_some (first (clashes (new_row now i owner)) t) ≡ false
        → find_row k (t ++ new_row now i owner ∷ []) ≡ some r
    appended _ =
        unfold find_row in first-append_kept (has_id k) t (new_row now i owner ∷ []) r found

-- A row that has kept its status, then gives up or not.
Same-GivesUp :
    (i : InitStatus) (k : String) (r r' : WorkflowStatus) (t : List WorkflowStatus)
    → r'.status ≡ r.status
    → (r'.name ≡ r.name) × (r'.class_name ≡ r.class_name)
    → Follows (GivesUp i k) k r' t
    → Follows (GivesUp i k) k r t
Same-GivesUp i k r r' t s (n, c) (r'', found, moves, n', c') =
    (r'', found, ground (arith, s, moves), n' ∙ n, c' ∙ c)

admit-Follows :
    (now : ℕ) (i : InitStatus) (owner : Option String) (o : InitOptions) (row : WorkflowStatus)
    (k : String) (r : WorkflowStatus) (t t' : List WorkflowStatus)
    → find_row k t ≡ some r
    → Follows Same k r t'
    → Follows (GivesUp i k) k r (admit now i owner o row t t').1
unfolding admit
admit-Follows now i owner o row k r t t' found (r', found', s, n, c) =
    elim (Bool-cases (
      not (same_column owner row.owner_xid)
      && not o.is_recovery_request
      && not o.is_dequeued_request)) [
        | inl other ↦ rw (other, admit) (unchanged-Follows (GivesUp i k) k r t found (inl refl))
        | inr ours ↦ elim (Bool-cases (too_many o.max_retries row.recovery_attempts)) [
          | inl many ↦
              rw (ours, many, admit)
                (Same-GivesUp i k r r' _ s (n, c)
                  (unfold update_workflow_status where_clause set_clause in
                    update-Follows (GivesUp i k) _ _ k r' t' (λ _. refl) found'
                      (ground (
                        arith,
                        ap (same i.workflow_uuid) (key k r' t' found'),
                        same_sym r'.workflow_uuid i.workflow_uuid,
                      ))
                      (ground arith)))
          | inr few ↦
              rw (ours, few, admit)
                (Same-GivesUp i k r r' t' s (n, c)
                  (unchanged-Follows (GivesUp i k) k r' t' found' (inl refl)))
        ]
      ]

after_insert-Follows :
    (now : ℕ) (i : InitStatus) (owner : Option String) (o : InitOptions) (k : String)
    (r : WorkflowStatus) (t t' : List WorkflowStatus)
    → find_row k t ≡ some r
    → Follows Same k r t'
    → (res : Result WorkflowStatus)
    → Follows (GivesUp i k) k r (after_insert now i owner o t t' res).1
unfolding after_insert
after_insert-Follows now i owner o k r t t' found later (err e) =
    unchanged-Follows (GivesUp i k) k r t found (inl refl)
after_insert-Follows now i owner o k r t t' found later (ok row) =
    elim (Bool-cases (same_function i row)) [
      | inl fits ↦ rw fits (admit-Follows now i owner o row k r t t' found later)
      | inr clash ↦ rw clash (unchanged-Follows (GivesUp i k) k r t found (inl refl))
    ]

pub starts-Follows :
    (k : String) (r : WorkflowStatus) (t : List WorkflowStatus)
    → find_row k t ≡ some r
    → (now : ℕ) (i : InitStatus) (owner : Option String) (o : InitOptions)
    → Follows (Allowed (starts now i owner o) k) k r (init_workflow_status now i owner o t).1
unfolding init_workflow_status
starts-Follows k r t found now i owner o =
    after_insert-Follows now i owner o k r t _ found
      (insert-Follows now i owner (o.is_recovery_request || o.is_dequeued_request) k r t found) _
