-- ===== src/SysDb/Rows.antt =====
-- Rows of `workflow_status` by their key, and what an `UPDATE` does to the row of a key.
use mathlib.Core.Option
use dbos_transact_ts.Common.{
  String, Bool, Option, List, ◌≡◌, some, true, first, first-update, first_sound, update, changed,
  same, ap, count, count-update, first-count, ◌≤◌, [], ◌∷◌, All, All-imp, same_refl, arith,
}
use dbos_transact_ts.SysDb.Schema.{WorkflowStatus}

-- `WHERE workflow_uuid = $1`
abbrev pub has_id : String → WorkflowStatus → Bool
has_id id r = same r.workflow_uuid id

-- The row of a key.
unfoldable pub find_row : String → List WorkflowStatus → Option WorkflowStatus
find_row id t = first (has_id id) t

-- A change of a row that leaves its key alone.
abbrev pub KeepsId : (WorkflowStatus → WorkflowStatus) → Type 0
KeepsId f = (r : WorkflowStatus) → (f r).workflow_uuid ≡ r.workflow_uuid

-- An `UPDATE` that leaves the keys alone changes the row of a key where it meets the condition.
pub find_row-update :
    (id : String) (q : WorkflowStatus → Bool) (f : WorkflowStatus → WorkflowStatus)
    → KeepsId f
    → (t : List WorkflowStatus)
    → find_row id (update q f t) ≡ Option.map (changed q f) (find_row id t)
unfolding find_row
find_row-update id q f keeps t =
    first-update (has_id id) q f (λ r. ap (λ (k : String). same k id) (keeps r)) t

pub find_row-id :
    (id : String) (t : List WorkflowStatus) (r : WorkflowStatus)
    → find_row id t ≡ some r
    → same r.workflow_uuid id ≡ true
unfolding find_row
find_row-id id t r h = first_sound (has_id id) t r h

-- `workflow_uuid` is the primary key.
abbrev pub UniqueIds : List WorkflowStatus → Type 0
UniqueIds t = (id : String) → count (has_id id) t ≤ 1

pub update-UniqueIds :
    (q : WorkflowStatus → Bool) (f : WorkflowStatus → WorkflowStatus)
    → KeepsId f
    → (t : List WorkflowStatus) → UniqueIds t
    → UniqueIds (update q f t)
update-UniqueIds q f keeps t h id =
    rw (count-update (has_id id) q f (λ r. ap (λ (k : String). same k id) (keeps r)) t) (h id)

-- Every row is the one found under its key.
pub found-All :
    (t : List WorkflowStatus) → UniqueIds t → All (λ r. find_row r.workflow_uuid t ≡ some r) t
unfolding find_row
found-All [] h = tt
found-All (x ∷ t) h = (
  rw (same_refl x.workflow_uuid),
  All-imp (λ r. find_row r.workflow_uuid t ≡ some r)
      (λ r. find_row r.workflow_uuid (x ∷ t) ≡ some r) (λ r e. later r e) t
      (found-All t (λ id. omega (arith, h id))),
)
  where
    later :
        (r : WorkflowStatus)
        → find_row r.workflow_uuid t ≡ some r
        → find_row r.workflow_uuid (x ∷ t) ≡ some r
    later r e = ground (arith, e, first-count (has_id r.workflow_uuid) t r e, h r.workflow_uuid)
