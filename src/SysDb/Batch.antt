-- ===== src/SysDb/Batch.antt =====
-- `enqueueWorkflows`: a batch of workflows in one transaction, with the times of creation that
-- `#assignBatchCreatedAt` gives them. A `Map` is a function to an option. The rows are inserted one
-- after the other: the chunks only bound the parameters of a statement, and a row of the batch that
-- has the key of an earlier one is skipped in either case.
pub mod Seeds
pub mod Order
pub mod Redelivery
use dbos_transact_ts.Common.{
  ℕ, suc, max, String, Bool, true, false, not, ◌&&◌, ◌||◌, Option, map, none, some, List, [], ◌∷◌,
  ◌++◌, same, column_is, if◌then◌else◌, or_else, is_some,
}
use dbos_transact_ts.SysDb.Schema.{WorkflowStatus, pending, enqueued, status_eq}
use dbos_transact_ts.SysDb.Rows.{find_row}
use dbos_transact_ts.SysDb.Result.{Result, ok, err, not_enqueued, unsupported_deduplication}
use dbos_transact_ts.SysDb.Family.{add_all}
use dbos_transact_ts.SysDb.Init.{InitStatus, new_row}

-- `Map<string, number>`
abbrev pub Cursors : Type 0
Cursors = String → Option ℕ

-- `map.set(key, value)`
unfoldable pub set_cursor : String → ℕ → Cursors → Cursors
set_cursor k n c j = if same k j then some n else c j

-- `map.get(key) ?? 0`
abbrev pub cursor : String → Cursors → ℕ
cursor k c = or_else (c k) 0

-- `queue_partition_key = $1 AND status = ANY($2)`
abbrev pub counts : String → WorkflowStatus → Bool
counts k r =
    column_is r.queue_partition_key k && (status_eq r.status enqueued || status_eq r.status pending)

-- `MAX(created_at)`
unfoldable pub max_created_at : String → List WorkflowStatus → Option ℕ
max_created_at k [] = none
max_created_at k (r ∷ t) =
    let rest = max_created_at k t in
    if counts k r then some (max r.created_at (or_else rest 0)) else rest

-- The partition keys of the batch, one for each workflow.
abbrev pub partitions : List InitStatus → List (Option String)
partitions is = map (λ i. i.queue_partition_key) is

abbrev pub keys_of : List (Option String) → List String
keys_of [] = []
keys_of (none ∷ ks) = keys_of ks
keys_of (some k ∷ ks) = k ∷ keys_of ks

-- The keys that have no cursor yet.
abbrev pub without_cursor : Cursors → List String → List String
without_cursor c [] = []
without_cursor c (k ∷ ks) = if is_some (c k) then without_cursor c ks else k ∷ without_cursor c ks

unfoldable pub seed : List String → List WorkflowStatus → Cursors → Cursors
unfolding max_created_at set_cursor
seed [] t c = c
seed (k ∷ ks) t c = elim (max_created_at k t) [
  | none ↦ seed ks t c
  | some m ↦ seed ks t (set_cursor k (max (cursor k c) (suc m)) c)
]

-- The loop over the batch: the times, and `nextForKey` at its end.
unfoldable pub stamp : ℕ → Cursors → Cursors → List (Option String) → List ℕ × Cursors
unfolding set_cursor
stamp now c next [] = ([], next)
stamp now c next (none ∷ ks) = (now ∷ (stamp now c next ks).0, (stamp now c next ks).1)
stamp now c next (some k ∷ ks) =
    let value = or_else (next k) (max now (cursor k c)) in
    let rest = stamp now c (set_cursor k (suc value) next) ks in (value ∷ rest.0, rest.1)

-- The cursors after the batch.
abbrev pub advance : Cursors → Cursors → Cursors
advance next c k = elim (next k) [ none ↦ c k | some n ↦ some n ]

abbrev pub no_cursors : Cursors
no_cursors k = none

-- The cursors once the keys of the batch are seeded.
unfoldable pub seeded : List (Option String) → List WorkflowStatus → Cursors → Cursors
unfolding seed add_all
seeded ks t c = seed (without_cursor c (add_all [] (keys_of ks))) t c

unfoldable pub assign_batch_created_at :
    ℕ → List (Option String) → List WorkflowStatus → Cursors → List ℕ × Cursors
unfolding seeded stamp
assign_batch_created_at now ks t c =
    let (times, next) = stamp now (seeded ks t c) no_cursors ks in
    (times, advance next (seeded ks t c))

-- The `VALUES` of one workflow.
unfoldable pub batch_row : InitStatus → ℕ → WorkflowStatus
unfolding new_row
batch_row i created_at = record (new_row created_at i none) {
  created_at = created_at;
  updated_at = created_at;
  recovery_attempts = 0;
  deduplication_id = none;
  forked_from = none;
  debounce_deadline_epoch_ms = none;
  is_debounced = false;
}

-- `INSERT ... ON CONFLICT (workflow_uuid) DO NOTHING RETURNING workflow_uuid`
unfoldable pub insert_batch :
    List InitStatus → List ℕ → List WorkflowStatus → List String × List WorkflowStatus
unfolding find_row batch_row
insert_batch [] times t = ([], t)
insert_batch (i ∷ is) [] t = ([], t)
insert_batch (i ∷ is) (n ∷ times) t = elim (find_row i.workflow_uuid t) [
  | some r ↦ insert_batch is times t
  | none ↦
      let rest = insert_batch is times (t ++ batch_row i n ∷ []) in
      (i.workflow_uuid ∷ rest.0, rest.1)
]

-- The checks of the batch.
unfoldable pub check_batch : List InitStatus → Result (Unit {0})
check_batch [] = ok tt
check_batch (i ∷ is) =
    let rest = check_batch is in
    if not (status_eq i.status enqueued)
    then err (not_enqueued i.workflow_uuid i.status)
    else (if is_some i.deduplication_id
        then err (unsupported_deduplication i.workflow_uuid)
        else rest)

unfoldable pub enqueue_workflows :
    ℕ
    → List InitStatus
    → List WorkflowStatus
    → Cursors
    → Result (List String) × List WorkflowStatus × Cursors
unfolding check_batch assign_batch_created_at insert_batch
enqueue_workflows now [] t c = (ok [], t, c)
enqueue_workflows now (i ∷ is) t c = elim (check_batch (i ∷ is)) [
  | err e ↦ (err e, t, c)
  | ok _ ↦
      let (times, c') = assign_batch_created_at now (partitions (i ∷ is)) t c in
      let (inserted, t') = insert_batch (i ∷ is) times t in (ok inserted, t', c')
]
