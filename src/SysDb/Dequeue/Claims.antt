-- ===== src/SysDb/Dequeue/Claims.antt =====
-- The claiming loop of a dequeue, and the ways in which a dequeue can end.
use dbos_transact_ts.Common.{
  ℕ, ◌+◌, ◌≤◌, String, Bool, false, Option, some, List, [], ◌∷◌, ◌≡◌, refl, update, count,
  count-update_le, count-and_le, length, length-append, not, length-take_le, map, ltb, arith,
  Bool-cases, inl, inr, select,
}
use dbos_transact_ts.Queue.Params.{WorkflowQueue, QueueRateLimit}
use dbos_transact_ts.SysDb.Schema.{WorkflowStatus, enqueued, status_eq}
use dbos_transact_ts.SysDb.Rows.{has_id, UniqueIds, update-UniqueIds}
use dbos_transact_ts.SysDb.Result.{Result, ok, err, Fault}
use dbos_transact_ts.SysDb.Dequeue.{
  Env, claimable, mark_started, claim, push_if, limit_reached, lock_rows, max_tasks, recent_count,
  no_tasks, find_and_mark_startable_workflows, selected, start_rows,
}

pub mark_started-UniqueIds :
    (q : WorkflowQueue) (env : Env) (id : String) (t : List WorkflowStatus)
    → UniqueIds t
    → UniqueIds (update (claimable id) (mark_started q env) t)
unfolding mark_started
mark_started-UniqueIds q env id t h =
    update-UniqueIds (claimable id) (mark_started q env) (λ r. refl) t h

pub claimable-count_le :
    (id : String) (t : List WorkflowStatus) → UniqueIds t → count (claimable id) t ≤ 1
claimable-count_le id t h =
    omega (arith, h id, count-and_le (has_id id) (λ r. status_eq r.status enqueued) t)

module _ (q : WorkflowQueue) (env : Env) (recents : ℕ) where
  -- Whatever is counted, a claim adds at most one for each workflow that it returns.
  pub claim-count_le :
      (p : WorkflowStatus → Bool) (ids claimed : List String) (t : List WorkflowStatus)
      → UniqueIds t
      → count p (claim q env recents ids claimed t).1 + length claimed
        ≤ count p t + length (claim q env recents ids claimed t).0
  unfolding claim
  claim-count_le p [] claimed t h = omega arith
  claim-count_le p (id ∷ ids) claimed t h = ground (
    arith,
    claimable-count_le id t h,
    count-update_le p (claimable id) (mark_started q env) t,
    length-append claimed (id ∷ []),
    claim-count_le p ids (push_if (ltb 0 (count (claimable id) t)) claimed id)
        (update (claimable id) (mark_started q env) t) (mark_started-UniqueIds q env id t h),
  )

  pub claim-length_le :
      (ids claimed : List String) (t : List WorkflowStatus)
      → length (claim q env recents ids claimed t).0 ≤ length claimed + length ids
  unfolding claim
  claim-length_le [] claimed t = omega arith
  claim-length_le (id ∷ ids) claimed t = ground (
    arith,
    length-append claimed (id ∷ []),
    claim-length_le ids (push_if (ltb 0 (count (claimable id) t)) claimed id)
        (update (claimable id) (mark_started q env) t),
  )

  pub claim-rate_le :
      (l : QueueRateLimit) (ids claimed : List String) (t : List WorkflowStatus)
      → q.rate_limit ≡ some l
      → length claimed + recents ≤ l.limit_per_period
      → length (claim q env recents ids claimed t).0 + recents ≤ l.limit_per_period
  unfolding claim
  claim-rate_le l [] claimed t e h = h
  claim-rate_le l (id ∷ ids) claimed t e h = ground (
    arith,
    length-append claimed (id ∷ []),
    claim-rate_le l ids (push_if (ltb 0 (count (claimable id) t)) claimed id)
        (update (claimable id) (mark_started q env) t),
  )

pub lock_rows-length_le :
    (nowait : Bool) (env : Env) (n : ℕ) (rows chosen : List WorkflowStatus)
    → lock_rows nowait env (some n) rows ≡ ok chosen
    → length chosen ≤ n
unfolding lock_rows
lock_rows-length_le nowait env n rows chosen h = ground (
  arith,
  length-take_le n rows,
  length-take_le n (select (λ r. not (env.locked r.workflow_uuid)) rows),
)

module _ {ℓ} (P : Result (List String) × List WorkflowStatus → Type ℓ) (q : WorkflowQueue)
    (p : Option String) (env : Env) (t : List WorkflowStatus) (nothing : P (ok [], t))
    (refused : (e : Fault) → P (err e, t))
    (claims : (rows : List WorkflowStatus)
      → limit_reached q.rate_limit (recent_count q p env t) ≡ false
      → selected q p env t ≡ ok rows
      → let c = claim q env (recent_count q p env t) (map (λ r. r.workflow_uuid) rows) [] t in
        P (ok c.0, c.1)) where
  start_rows_cases :
      (res : Result (List WorkflowStatus))
      → limit_reached q.rate_limit (recent_count q p env t) ≡ false
      → selected q p env t ≡ res
      → P (start_rows q p env t res)
  unfolding start_rows
  start_rows_cases (err e) room h = refused e
  start_rows_cases (ok rows) room h = claims rows room h

  -- What a dequeue can come to: nothing, a lock held by another worker, or the claiming loop over
  -- the rows that it has locked, below the rate limit.
  pub dequeue_cases : P (find_and_mark_startable_workflows q p env t)
  unfolding find_and_mark_startable_workflows
  dequeue_cases = elim (Bool-cases (limit_reached q.rate_limit (recent_count q p env t))) [
    | inl full ↦ rw (full, find_and_mark_startable_workflows) nothing
    | inr room ↦ elim (Bool-cases (no_tasks (max_tasks q p env.local_running t))) [
      | inl idle ↦ rw (room, idle, find_and_mark_startable_workflows) nothing
      | inr some_left ↦
          rw (room, some_left, find_and_mark_startable_workflows)
            (start_rows_cases (selected q p env t) room refl)
    ]
  ]
