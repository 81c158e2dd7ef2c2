-- ===== src/SysDb/Dequeue/Loop.antt =====
-- Which of the selected workflows the claiming loop of a dequeue claims.
use mathlib.Core.List.{append-nil, append_assoc}
use dbos_transact_ts.Common.{
  ℕ, zero, suc, ◌+◌, ◌-◌, String, true, false, Option, none, some, List, [], ◌∷◌, ◌++◌, ◌≡◌, refl,
  ◌∙◌, sym, same_iff, count, first-and-count, All, All-imp, All-zip, length, length-append, map,
  arith, inl, inr, update, count_none, same_refl, Bool-cases,
}
use dbos_transact_ts.Queue.Params.{WorkflowQueue, QueueRateLimit}
use dbos_transact_ts.SysDb.Schema.{WorkflowStatus, enqueued, status_eq}
use dbos_transact_ts.SysDb.Rows.{UniqueIds, has_id, find_row, find_row-update}
use dbos_transact_ts.SysDb.Dequeue.{Env, claim, claimable, limit_reached, mark_started, limit_rows}
use dbos_transact_ts.SysDb.Dequeue.Claims.{claimable-count_le, mark_started-UniqueIds}

abbrev pub ids_of : List WorkflowStatus → List String
ids_of rows = map (λ r. r.workflow_uuid) rows

-- A selected row, as the loop finds it in the table.
abbrev pub Ready : List WorkflowStatus → WorkflowStatus → Type 0
Ready t r = (find_row r.workflow_uuid t ≡ some r) × (status_eq r.status enqueued ≡ true)

-- What the rate limit still allows once `n` workflows have started; `none` is no limit.
abbrev pub room : Option QueueRateLimit → ℕ → Option ℕ
room none n = none
room (some l) n = some (l.limit_per_period - n)

pub limit_rows_nil {ℓ} : {A : Type ℓ} (o : Option ℕ) → limit_rows {A = A} o [] ≡ []
limit_rows_nil none = refl
limit_rows_nil (some zero) = refl
limit_rows_nil (some (suc n)) = refl

pub room_full :
    (l : Option QueueRateLimit) (n : ℕ) (rows : List WorkflowStatus)
    → limit_reached l n ≡ true
    → limit_rows (room l n) rows ≡ []
room_full none n rows h = cc
room_full (some l) n rows h = let e : l.limit_per_period - n ≡ 0 = ground arith in rw e

pub room_left :
    (l : Option QueueRateLimit) (n : ℕ) (x : WorkflowStatus) (rows : List WorkflowStatus)
    → limit_reached l n ≡ false
    → limit_rows (room l n) (x ∷ rows) ≡ x ∷ limit_rows (room l (suc n)) rows
room_left none n x rows h = refl
room_left (some l) n x rows h =
    let e : l.limit_per_period - n ≡ suc (l.limit_per_period - suc n) = ground arith in rw e

module _ (q : WorkflowQueue) (env : Env) where
  -- Claiming one row leaves the other selected rows as they are.
  Ready-mark :
      (t : List WorkflowStatus) (r x : WorkflowStatus)
      → has_id x.workflow_uuid r ≡ false
      → Ready t r
      → Ready (update (claimable x.workflow_uuid) (mark_started q env) t) r
  Ready-mark t r x apart (found, waiting) = (
    ground (
      arith,
      found,
      find_row-update r.workflow_uuid (claimable x.workflow_uuid) (mark_started q env)
          (λ _. unfold mark_started in refl) t,
      same_iff r.workflow_uuid x.workflow_uuid,
      same_iff x.workflow_uuid r.workflow_uuid,
    ),
    waiting,
  )

  pub count-Ready :
      (t : List WorkflowStatus) (r : WorkflowStatus)
      → UniqueIds t
      → Ready t r
      → count (claimable r.workflow_uuid) t ≡ 1
  unfolding find_row
  count-Ready t r unique (found, waiting) = omega (
    arith,
    claimable-count_le r.workflow_uuid t unique,
    first-and-count (has_id r.workflow_uuid) (λ x. status_eq x.status enqueued) t r found waiting,
  )

  pub apart_of :
      (x : WorkflowStatus) (rows : List WorkflowStatus)
      → UniqueIds (x ∷ rows)
      → All (λ r. has_id x.workflow_uuid r ≡ false) rows
  apart_of x rows unique =
      count_none (has_id x.workflow_uuid) rows
        (ground (arith, unique x.workflow_uuid, same_refl x.workflow_uuid))

  pub Ready-rest :
      (t : List WorkflowStatus) (x : WorkflowStatus) (rows : List WorkflowStatus)
      → UniqueIds (x ∷ rows)
      → All (Ready t) rows
      → All (Ready (update (claimable x.workflow_uuid) (mark_started q env) t)) rows
  Ready-rest t x rows unique ready =
      All-imp (λ r. (has_id x.workflow_uuid r ≡ false) × Ready t r)
        (Ready (update (claimable x.workflow_uuid) (mark_started q env) t))
        (λ r h. Ready-mark t r x h.0 h.1) rows
        (All-zip (λ r. has_id x.workflow_uuid r ≡ false) (Ready t) rows (apart_of x rows unique)
          ready)

  -- The loop claims the selected rows in their order, as many as the rate limit has room for.
  pub claim_exact :
      (n : ℕ) (rows : List WorkflowStatus) (claimed : List String) (t : List WorkflowStatus)
      → UniqueIds t
      → UniqueIds rows
      → All (Ready t) rows
      → (claim q env n (ids_of rows) claimed t).0
        ≡ claimed ++ ids_of (limit_rows (room q.rate_limit (length claimed + n)) rows)
  unfolding claim
  claim_exact n [] claimed t unique distinct ready =
      rw (limit_rows_nil (room q.rate_limit (length claimed + n))) (sym (append-nil claimed))
  claim_exact n (x ∷ rows) claimed t unique distinct ready =
      elim (Bool-cases (limit_reached q.rate_limit (length claimed + n))) [
        | inl full ↦
            rw (full, room_full q.rate_limit (length claimed + n) (x ∷ rows) full)
              (sym (append-nil claimed))
        | inr left ↦
            let later =
              claim_exact n rows (claimed ++ x.workflow_uuid ∷ [])
                (update (claimable x.workflow_uuid) (mark_started q env) t)
                (mark_started-UniqueIds q env x.workflow_uuid t unique)
                (λ id. omega (arith, distinct id)) (Ready-rest t x rows distinct ready.1) in
            let longer : length (claimed ++ x.workflow_uuid ∷ []) + n ≡ suc (length claimed + n) =
              omega (arith, length-append claimed (x.workflow_uuid ∷ [])) in
            rw
              (
                left,
                count-Ready t x unique ready.0,
                room_left q.rate_limit (length claimed + n) x rows left,
              )
              ((rw longer at later) ∙ append_assoc claimed (x.workflow_uuid ∷ []) _)
      ]

  pub claim_exact_from_start :
      (n : ℕ) (rows : List WorkflowStatus) (t : List WorkflowStatus)
      → UniqueIds t
      → UniqueIds rows
      → All (Ready t) rows
      → (claim q env n (ids_of rows) [] t).0 ≡ ids_of (limit_rows (room q.rate_limit n) rows)
  claim_exact_from_start n rows t unique distinct ready =
      let start : 0 + n ≡ n = omega arith in
      rw start at (claim_exact n rows [] t unique distinct ready)
