-- ===== src/SysDb/Dequeue/Marks.antt =====
-- The rows that the claiming loop of a dequeue marks as started.
use mathlib.Core.Option
use dbos_transact_ts.Common.{
  any_of, Bool, if◌then◌else◌, All-take, Option-cases, same, changed, ℕ, suc, ◌+◌, String, false,
  Option, none, some, List, [], ◌∷◌, ◌++◌, ◌≡◌, refl, ap, ◌∙◌, sym, same_iff, All, length,
  length-append, arith, inl, inr, update, same_refl, Bool-cases,
}
use dbos_transact_ts.Queue.Params.{WorkflowQueue}
use dbos_transact_ts.SysDb.Schema.{WorkflowStatus}
use dbos_transact_ts.SysDb.Rows.{UniqueIds, has_id, find_row, find_row-update, find_row-id}
use dbos_transact_ts.SysDb.Dequeue.{Env, claim, claimable, limit_reached, mark_started, limit_rows}
use dbos_transact_ts.SysDb.Dequeue.Claims.{mark_started-UniqueIds}
use dbos_transact_ts.SysDb.Dequeue.Loop.{
  ids_of, Ready, room, room_full, room_left, limit_rows_nil, count-Ready, apart_of, Ready-rest,
}

pub limited-All {κ} :
    (P : WorkflowStatus → Type κ) (o : Option ℕ) (rows : List WorkflowStatus)
    → All P rows
    → All P (limit_rows o rows)
limited-All P none rows h = h
limited-All P (some n) rows h = All-take P n rows h

any_of-apart :
    (id : String) (rows : List WorkflowStatus)
    → All (λ r. has_id id r ≡ false) rows
    → any_of (ids_of rows) id ≡ false
unfolding any_of
any_of-apart id [] h = refl
any_of-apart id (r ∷ rows) h = ground (arith, h.0, any_of-apart id rows h.1)

module _ (q : WorkflowQueue) (env : Env) where
  -- The row of an id, claimed or not.
  abbrev pub marked_if : Bool → WorkflowStatus → WorkflowStatus
  marked_if b r = if b then mark_started q env r else r

  pub map-unmarked : (x : Option WorkflowStatus) → x ≡ Option.map (λ r. marked_if false r) x
  map-unmarked none = refl
  map-unmarked (some r) = refl

  -- One claim, then the claims of the later rows.
  mark-then :
      (t : List WorkflowStatus) (x : WorkflowStatus) (ids : List String) (id : String)
      → Ready t x
      → any_of ids x.workflow_uuid ≡ false
      → Option.map
          (λ r. marked_if (any_of ids id) r)
          (find_row id (update (claimable x.workflow_uuid) (mark_started q env) t))
        ≡ Option.map (λ r. marked_if (any_of (x.workflow_uuid ∷ ids) id) r) (find_row id t)
  unfolding any_of
  mark-then t x ids id (found, waiting) distinct = elim (Option-cases (find_row id t)) [
    | inl absent ↦ ground (arith, absent, marked_row)
    | inr (r, at) ↦ elim (Bool-cases (same x.workflow_uuid id)) [
      | inl here ↦
          let its_id : x.workflow_uuid ≡ id = (same_iff x.workflow_uuid id).0 here in
          let its_row : find_row id t ≡ some x = ap (λ k. find_row k t) (sym its_id) ∙ found in
          let none_later : any_of ids id ≡ false = ap (any_of ids) (sym its_id) ∙ distinct in
          ground (arith, its_row, here, waiting, none_later, same_refl x.workflow_uuid, marked_row)
      | inr apart ↦ ground (
        arith,
        at,
        apart,
        find_row-id id t r at,
        same_iff r.workflow_uuid x.workflow_uuid,
        same_iff r.workflow_uuid id,
        marked_row,
      )
    ]
  ]
    where
      marked_row :
          find_row id (update (claimable x.workflow_uuid) (mark_started q env) t)
          ≡ Option.map (changed (claimable x.workflow_uuid) (mark_started q env)) (find_row id t)
      marked_row =
          find_row-update id (claimable x.workflow_uuid) (mark_started q env)
            (λ _. unfold mark_started in refl) t

  claim_rows :
      (n : ℕ) (rows : List WorkflowStatus) (claimed : List String) (t : List WorkflowStatus)
      → UniqueIds t
      → UniqueIds rows
      → All (Ready t) rows
      → (id : String)
      → find_row id (claim q env n (ids_of rows) claimed t).1
        ≡ Option.map
            (λ r.
              marked_if
                (any_of (ids_of (limit_rows (room q.rate_limit (length claimed + n)) rows)) id)
                r)
            (find_row id t)
  unfolding claim any_of
  claim_rows n [] claimed t unique distinct ready id =
      rw (limit_rows_nil (room q.rate_limit (length claimed + n))) (map-unmarked (find_row id t))
  claim_rows n (x ∷ rows) claimed t unique distinct ready id =
      elim (Bool-cases (limit_reached q.rate_limit (length claimed + n))) [
        | inl full ↦
            rw (full, room_full q.rate_limit (length claimed + n) (x ∷ rows) full)
              (map-unmarked (find_row id t))
        | inr left ↦
            let later =
              claim_rows n rows (claimed ++ x.workflow_uuid ∷ [])
                (update (claimable x.workflow_uuid) (mark_started q env) t)
                (mark_started-UniqueIds q env x.workflow_uuid t unique)
                (λ id. omega (arith, distinct id)) (Ready-rest q env t x rows distinct ready.1)
                id in
            let longer : length (claimed ++ x.workflow_uuid ∷ []) + n ≡ suc (length claimed + n) =
              omega (arith, length-append claimed (x.workflow_uuid ∷ [])) in
            let others = limit_rows (room q.rate_limit (suc (length claimed + n))) rows in
            let distinct_id : any_of (ids_of others) x.workflow_uuid ≡ false =
              any_of-apart x.workflow_uuid others (
                limited-All (λ r. has_id x.workflow_uuid r ≡ false)
                  (room q.rate_limit (suc (length claimed + n))) rows
                  (apart_of q env x rows distinct)) in
            rw
              (
                left,
                count-Ready q env t x unique ready.0,
                room_left q.rate_limit (length claimed + n) x rows left,
              )
              ((rw longer at later) ∙ mark-then t x (ids_of others) id ready.0 distinct_id)
      ]

  pub claim_rows_from_start :
      (n : ℕ) (rows : List WorkflowStatus) (t : List WorkflowStatus)
      → UniqueIds t
      → UniqueIds rows
      → All (Ready t) rows
      → (id : String)
      → find_row id (claim q env n (ids_of rows) [] t).1
        ≡ Option.map
            (λ r. marked_if (any_of (ids_of (limit_rows (room q.rate_limit n) rows)) id) r)
            (find_row id t)
  claim_rows_from_start n rows t unique distinct ready id =
      let start : 0 + n ≡ n = omega arith in
      rw start at (claim_rows n rows [] t unique distinct ready id)
