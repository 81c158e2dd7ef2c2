-- ===== src/SysDb/Dequeue/Selection.antt =====
-- A dequeue against its selection: the ids it claims and the rows it leaves in the table.
use mathlib.Core.Option
use dbos_transact_ts.SysDb.Dequeue.Marks.{marked_if, map-unmarked, claim_rows_from_start}
use dbos_transact_ts.Common.{
  any_of, ℕ, zero, suc, String, Bool, true, false, not, Option, none, some, List, [], ◌≡◌, refl, ap,
  sym, if◌then◌else◌, count-select_le, count-take_le, count-order_by, first_never, select_always,
  All, All-imp, All-zip, All-take, All-select, All-select_of, All-order_by, arith, inl, inr,
  Bool-cases, select,
}
use dbos_transact_ts.Queue.Params.{WorkflowQueue}
use dbos_transact_ts.SysDb.Schema.{WorkflowStatus}
use dbos_transact_ts.SysDb.Rows.{UniqueIds, has_id, find_row, found-All}
use dbos_transact_ts.SysDb.Result.{ok}
use dbos_transact_ts.SysDb.Dequeue.{
  Env, limit_reached, limit_rows, max_tasks, candidates, recent_count, before, startable,
  find_and_mark_startable_workflows, selected, lock_rows, start_rows, no_tasks, is_locked,
  waits_for_no_lock,
}
use dbos_transact_ts.SysDb.Dequeue.Loop.{
  ids_of, Ready, room, room_full, limit_rows_nil, claim_exact_from_start,
}

no_tasks_none :
    (o : Option ℕ) (rows : List WorkflowStatus) → no_tasks o ≡ true → limit_rows o rows ≡ []
no_tasks_none none rows h = cc
no_tasks_none (some zero) rows h = refl
no_tasks_none (some (suc n)) rows h = cc

module _ (q : WorkflowQueue) (p : Option String) (env : Env) (t : List WorkflowStatus)
    (unique : UniqueIds t) where
  pub candidates-Ready : All (Ready t) (candidates q p env t)
  unfolding candidates
  candidates-Ready = All-order_by (Ready t) before (select (startable q p env) t) (
      All-imp (λ r. (startable q p env r ≡ true) × (find_row r.workflow_uuid t ≡ some r)) (Ready t)
        (λ r h. (h.1, ground (arith, h.0))) (select (startable q p env) t)
        (All-zip (λ r. startable q p env r ≡ true) (λ r. find_row r.workflow_uuid t ≡ some r)
          (select (startable q p env) t) (All-select (startable q p env) t)
          (All-select_of (λ r. find_row r.workflow_uuid t ≡ some r) (startable q p env) t
            (found-All t unique))))

  candidates-UniqueIds : UniqueIds (candidates q p env t)
  unfolding candidates
  candidates-UniqueIds id = omega (
    arith,
    unique id,
    count-order_by (has_id id) before (select (startable q p env) t),
    count-select_le (has_id id) (startable q p env) t,
  )

  -- The selected rows when no other transaction holds a lock.
  abbrev pub unlocked : List WorkflowStatus
  unlocked = limit_rows (max_tasks q p env.local_running t) (candidates q p env t)

  limited-Ready : (o : Option ℕ) → All (Ready t) (limit_rows o (candidates q p env t))
  limited-Ready none = candidates-Ready
  limited-Ready (some n) = All-take (Ready t) n (candidates q p env t) candidates-Ready

  limited-UniqueIds : (o : Option ℕ) → UniqueIds (limit_rows o (candidates q p env t))
  limited-UniqueIds none id = candidates-UniqueIds id
  limited-UniqueIds (some n) id =
      omega (arith, candidates-UniqueIds id, count-take_le (has_id id) n (candidates q p env t))

  selected-unlocked : ((id : String) → env.locked id ≡ false) → selected q p env t ≡ ok unlocked
  unfolding lock_rows
  selected-unlocked free =
      rw
        (
          first_never (is_locked env) (λ r. free r.workflow_uuid) unlocked,
          select_always (λ r. not (is_locked env r)) (λ r. rw (free r.workflow_uuid))
              (candidates q p env t),
        )
        (same_branches (waits_for_no_lock q.concurrency))
    where
      same_branches : (b : Bool) → (if b then ok unlocked else ok unlocked) ≡ ok unlocked
      same_branches true = refl
      same_branches false = refl

  -- The selected rows for which the rate limit has room.
  abbrev pub taken : List WorkflowStatus
  taken = limit_rows (room q.rate_limit (recent_count q p env t)) unlocked

  pub taken-UniqueIds : UniqueIds taken
  taken-UniqueIds = limited_by (room q.rate_limit (recent_count q p env t))
    where
      limited_by : (o : Option ℕ) → UniqueIds (limit_rows o unlocked)
      limited_by none id = limited-UniqueIds (max_tasks q p env.local_running t) id
      limited_by (some n) id = omega (
        arith,
        limited-UniqueIds (max_tasks q p env.local_running t) id,
        count-take_le (has_id id) n unlocked,
      )

  none_taken : no_tasks (max_tasks q p env.local_running t) ≡ true → taken ≡ []
  none_taken idle =
      rw (no_tasks_none (max_tasks q p env.local_running t) (candidates q p env t) idle)
        (limit_rows_nil (room q.rate_limit (recent_count q p env t)))

  pub dequeue-ids :
      ((id : String) → env.locked id ≡ false)
      → (find_and_mark_startable_workflows q p env t).0 ≡ ok (ids_of taken)
  unfolding find_and_mark_startable_workflows start_rows
  dequeue-ids free = elim (Bool-cases (limit_reached q.rate_limit (recent_count q p env t))) [
    | inl full ↦ rw (
      full,
      room_full q.rate_limit (recent_count q p env t) unlocked full,
      find_and_mark_startable_workflows,
    )
    | inr left ↦ elim (Bool-cases (no_tasks (max_tasks q p env.local_running t))) [
      | inl idle ↦
          rw (left, idle, find_and_mark_startable_workflows)
            (ap (λ (rows : List WorkflowStatus). ok (ids_of rows)) (sym (none_taken idle)))
      | inr busy ↦
          rw (left, busy, find_and_mark_startable_workflows, selected-unlocked free, start_rows)
            (ap ok (
              claim_exact_from_start q env (recent_count q p env t) unlocked t unique
                (limited-UniqueIds (max_tasks q p env.local_running t))
                (limited-Ready (max_tasks q p env.local_running t))))
    ]
  ]

  pub dequeue-rows :
      ((id : String) → env.locked id ≡ false)
      → (id : String)
      → find_row id (find_and_mark_startable_workflows q p env t).1
        ≡ Option.map (λ r. marked_if q env (any_of (ids_of taken) id) r) (find_row id t)
  unfolding find_and_mark_startable_workflows start_rows any_of
  dequeue-rows free id = elim (Bool-cases (limit_reached q.rate_limit (recent_count q p env t))) [
    | inl full ↦
        rw
          (
            full,
            room_full q.rate_limit (recent_count q p env t) unlocked full,
            find_and_mark_startable_workflows,
          )
          (map-unmarked q env (find_row id t))
    | inr left ↦ elim (Bool-cases (no_tasks (max_tasks q p env.local_running t))) [
      | inl idle ↦
          rw (left, idle, find_and_mark_startable_workflows, none_taken idle)
            (map-unmarked q env (find_row id t))
      | inr busy ↦
          rw (left, busy, find_and_mark_startable_workflows, selected-unlocked free, start_rows)
            (claim_rows_from_start q env (recent_count q p env t) unlocked t unique
              (limited-UniqueIds (max_tasks q p env.local_running t))
              (limited-Ready (max_tasks q p env.local_running t)) id)
    ]
  ]
