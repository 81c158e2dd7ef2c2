-- ===== src/SysDb/Batch/Redelivery.antt =====
-- A batch that is delivered again.
use dbos_transact_ts.Common.{
  ℕ, suc, max, or_else, length-map, String, true, Option, none, some, List, [], ◌∷◌, ◌++◌, ◌≡◌, ◌∙◌,
  refl, ap, same_refl, length, is_some, All, arith, Option-cases, inl, inr,
}
use dbos_transact_ts.SysDb.Schema.{WorkflowStatus}
use dbos_transact_ts.SysDb.Rows.{find_row, has_id}
use dbos_transact_ts.SysDb.Result.{Result, ok, Result-cases}
use dbos_transact_ts.SysDb.Steps.Checkpoints.{first-append_kept, first-append_new}
use dbos_transact_ts.SysDb.Init.{InitStatus}
use dbos_transact_ts.SysDb.Batch.{
  Cursors, insert_batch, batch_row, assign_batch_created_at, check_batch, enqueue_workflows, stamp,
  set_cursor, cursor, no_cursors, partitions, seeded,
}

-- Every workflow of the batch is in the table.
abbrev pub AllPresent : List InitStatus → List WorkflowStatus → Type 0
AllPresent is t = All (λ i. is_some (find_row i.workflow_uuid t) ≡ true) is

find_row-batch_row :
    (i : InitStatus) (n : ℕ) (t : List WorkflowStatus)
    → find_row i.workflow_uuid t ≡ none
    → find_row i.workflow_uuid (t ++ batch_row i n ∷ []) ≡ some (batch_row i n)
unfolding find_row
find_row-batch_row i n t h =
    first-append_new (has_id i.workflow_uuid) t (batch_row i n) h
      (unfold batch_row in same_refl i.workflow_uuid)

-- Inserting a batch keeps the rows that are there.
pub find_row-insert_batch :
    (k : String) (r : WorkflowStatus) (is : List InitStatus) (times : List ℕ)
    (t : List WorkflowStatus)
    → find_row k t ≡ some r
    → find_row k (insert_batch is times t).1 ≡ some r
unfolding insert_batch find_row
find_row-insert_batch k r [] times t h = h
find_row-insert_batch k r (i ∷ is) [] t h = h
find_row-insert_batch k r (i ∷ is) (n ∷ times) t h =
    elim (Option-cases (find_row i.workflow_uuid t)) [
      | inl fresh ↦ ground (
        arith,
        fresh,
        find_row-insert_batch k r is times (t ++ batch_row i n ∷ [])
            (first-append_kept (has_id k) t (batch_row i n ∷ []) r h),
      )
      | inr (old, e) ↦ ground (arith, e, find_row-insert_batch k r is times t h)
    ]

AllPresent-of :
    (is : List InitStatus) (t t' : List WorkflowStatus)
    → t ≡ t'
    → AllPresent is t'
    → AllPresent is t
AllPresent-of is t t' e h = rw e h

insert_batch-AllPresent :
    (is : List InitStatus) (times : List ℕ) (t : List WorkflowStatus)
    → length times ≡ length is
    → AllPresent is (insert_batch is times t).1
unfolding insert_batch
insert_batch-AllPresent [] times t h = tt
insert_batch-AllPresent (i ∷ is) [] t h = absurd (omega (arith, h))
insert_batch-AllPresent (i ∷ is) (n ∷ times) t h =
    elim (Option-cases (find_row i.workflow_uuid t)) [
      | inl fresh ↦
          let t' = t ++ batch_row i n ∷ [] in
          let kept =
            find_row-insert_batch i.workflow_uuid (batch_row i n) is times t'
              (find_row-batch_row i n t fresh) in
          AllPresent-of (i ∷ is) (insert_batch (i ∷ is) (n ∷ times) t).1
            (insert_batch is times t').1 (ground (arith, fresh))
            (ap is_some kept, insert_batch-AllPresent is times t' (omega (arith, h)))
      | inr (old, e) ↦
          AllPresent-of (i ∷ is) (insert_batch (i ∷ is) (n ∷ times) t).1 (insert_batch is times t).1
            (ground (arith, e))
            (
              ap is_some (find_row-insert_batch i.workflow_uuid old is times t e),
              insert_batch-AllPresent is times t (omega (arith, h)),
            )
    ]

-- Nothing is inserted where every row is there.
insert_batch-present :
    (is : List InitStatus) (times : List ℕ) (t : List WorkflowStatus)
    → AllPresent is t
    → insert_batch is times t ≡ ([], t)
unfolding insert_batch
insert_batch-present [] times t h = refl
insert_batch-present (i ∷ is) [] t h = refl
insert_batch-present (i ∷ is) (n ∷ times) t h = elim (Option-cases (find_row i.workflow_uuid t)) [
  | inl fresh ↦ absurd (ground (arith, fresh, h.0))
  | inr (old, e) ↦ ground (arith, e, insert_batch-present is times t h.1)
]

length-stamp :
    (now : ℕ) (c next : Cursors) (ps : List (Option String))
    → length (stamp now c next ps).0 ≡ length ps
unfolding stamp
length-stamp now c next [] = refl
length-stamp now c next (none ∷ ps) = ground (arith, length-stamp now c next ps)
length-stamp now c next (some k ∷ ps) =
    ap suc
      (length-stamp now c (set_cursor k (suc (or_else (next k) (max now (cursor k c)))) next) ps)

-- What a batch that passes the checks does.
enqueue_workflows_checked :
    (now : ℕ) (i : InitStatus) (is : List InitStatus) (t : List WorkflowStatus) (c : Cursors)
    → check_batch (i ∷ is) ≡ ok tt
    → let (times, c') = assign_batch_created_at now (partitions (i ∷ is)) t c in
      enqueue_workflows now (i ∷ is) t c
      ≡ (ok (insert_batch (i ∷ is) times t).0, (insert_batch (i ∷ is) times t).1, c')
unfolding enqueue_workflows
enqueue_workflows_checked now i is t c good = ground (arith, good)

-- A batch leaves the table as it is, or with the rows that it inserts.
pub enqueue_workflows_cases :
    (P : List WorkflowStatus → Type 0) (now : ℕ) (is : List InitStatus) (t : List WorkflowStatus)
    (c : Cursors)
    → P t
    → ((times : List ℕ) → P (insert_batch is times t).1)
    → P (enqueue_workflows now is t c).1
unfolding enqueue_workflows
enqueue_workflows_cases P now [] t c same inserted = same
enqueue_workflows_cases P now (i ∷ is) t c same inserted =
    elim (Result-cases (check_batch (i ∷ is))) [
      | inl (_, good) ↦
          rw
            (ap (λ (x : Result (List String) × List WorkflowStatus × Cursors). x.1)
              (enqueue_workflows_checked now i is t c good))
            (inserted (assign_batch_created_at now (partitions (i ∷ is)) t c).0)
      | inr (e, bad) ↦
          let unchanged : (enqueue_workflows now (i ∷ is) t c).1 ≡ t = ground (arith, bad) in
          rw unchanged same
    ]

length-assign_batch_created_at :
    (now : ℕ) (is : List InitStatus) (t : List WorkflowStatus) (c : Cursors)
    → length (assign_batch_created_at now (partitions is) t c).0 ≡ length is
unfolding assign_batch_created_at
length-assign_batch_created_at now is t c =
    length-stamp now (seeded (partitions is) t c) no_cursors (partitions is)
    ∙ length-map is (λ i. i.queue_partition_key)

-- A batch that is delivered again after it has been enqueued, at any time and with any cursors,
-- inserts nothing.
pub enqueue_workflows_again :
    (now now' : ℕ) (is : List InitStatus) (t : List WorkflowStatus) (c c' : Cursors)
    (inserted : List String)
    → (enqueue_workflows now is t c).0 ≡ ok inserted
    → let t' = (enqueue_workflows now is t c).1 in
      let (again, t'', _) = enqueue_workflows now' is t' c' in (again ≡ ok []) × (t'' ≡ t')
unfolding enqueue_workflows
enqueue_workflows_again now now' [] t c c' inserted h = (refl, refl)
enqueue_workflows_again now now' (i ∷ is) t c c' inserted h =
    elim (Result-cases (check_batch (i ∷ is))) [
      | inr (e, bad) ↦ absurd (ground (arith, bad, h))
      | inl (_, good) ↦ again good
    ]
  where
    again :
        check_batch (i ∷ is) ≡ ok tt
        → let t' = (enqueue_workflows now (i ∷ is) t c).1 in
          ((enqueue_workflows now' (i ∷ is) t' c').0 ≡ ok [])
          × ((enqueue_workflows now' (i ∷ is) t' c').1 ≡ t')
    again good =
        let t' = (enqueue_workflows now (i ∷ is) t c).1 in
        let times = (assign_batch_created_at now (partitions (i ∷ is)) t c).0 in
        let times' = (assign_batch_created_at now' (partitions (i ∷ is)) t' c').0 in
        let first_time = enqueue_workflows_checked now i is t c good in
        let second_time = enqueue_workflows_checked now' i is t' c' good in
        let same_table : t' ≡ (insert_batch (i ∷ is) times t).1 =
          ap (λ (x : Result (List String) × List WorkflowStatus × Cursors). x.1) first_time in
        let nothing = insert_batch-present (i ∷ is) times' t' (
          AllPresent-of (i ∷ is) t' (insert_batch (i ∷ is) times t).1 same_table (
            insert_batch-AllPresent (i ∷ is) times t
              (length-assign_batch_created_at now (i ∷ is) t c))) in
        (
          ap (λ (x : Result (List String) × List WorkflowStatus × Cursors). x.0) second_time
              ∙ ap (λ (x : List String × List WorkflowStatus). ok x.0) nothing,
          ap (λ (x : Result (List String) × List WorkflowStatus × Cursors). x.1) second_time
              ∙ ap (λ (x : List String × List WorkflowStatus). x.1) nothing,
        )
