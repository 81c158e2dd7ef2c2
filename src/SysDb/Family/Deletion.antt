-- ===== src/SysDb/Family/Deletion.antt =====
-- A deletion with its children removes the workflows and their descendants, and nothing else.
use dbos_transact_ts.Common.{
  String, true, none, some, List, [], ◌∷◌, ◌++◌, ◌≡◌, ◌↔◌, ◌⊎◌, refl, arith, ap, any_of,
  any_of-append, same, same_iff, if◌then◌else◌, Bool-cases, inl, inr,
}
use dbos_transact_ts.SysDb.Schema.{Db, WorkflowStatus}
use dbos_transact_ts.SysDb.Rows.{find_row}
use dbos_transact_ts.SysDb.Manage.{delete_rows}
use dbos_transact_ts.SysDb.Family.{children_of_each, delete_all, delete_workflows}
use dbos_transact_ts.SysDb.Family.Edges.{Descendant, any_of_self}
use dbos_transact_ts.SysDb.Family.Search.{get_workflow_children_descendants}
use dbos_transact_ts.SysDb.Family.Cascade.{Reached}

find_row-delete_rows :
    (ids : List String) (c : String) (t : List WorkflowStatus)
    → find_row c (delete_rows ids t) ≡ (if any_of ids c then none else find_row c t)
unfolding find_row delete_rows
find_row-delete_rows ids c [] = elim (Bool-cases (any_of ids c)) [
  | inl e ↦ rw e refl
  | inr e ↦ rw e refl
]
find_row-delete_rows ids c (r ∷ t) = elim (Bool-cases (same r.workflow_uuid c)) [
  | inl here ↦ ground (
    arith,
    here,
    ap (any_of ids) ((same_iff r.workflow_uuid c).0 here),
    find_row-delete_rows ids c t,
    Bool-cases (any_of ids c),
  )
  | inr other ↦
      ground (arith, other, find_row-delete_rows ids c t, Bool-cases (any_of ids r.workflow_uuid))
]

-- `c` is a descendant of one of the workflows.
abbrev Below : List String → List WorkflowStatus → String → Type 0
Below ids t c = (r : String) × (any_of ids r ≡ true) × Descendant t r c

Below-later :
    (x : String) (xs : List String) (t : List WorkflowStatus) (c : String)
    → Below xs t c
    → Below (x ∷ xs) t c
unfolding any_of
Below-later x xs t c (r, given, d) = (r, ground (arith, given, Bool-cases (same x r)), d)

Below-split :
    (x : String) (xs : List String) (t : List WorkflowStatus) (c : String)
    → Below (x ∷ xs) t c
    → Descendant t x c ⊎ Below xs t c
unfolding any_of
Below-split x xs t c (r, given, d) = elim (Bool-cases (same x r)) [
  | inl here ↦ inl (rw ((same_iff x r).0 here) d)
  | inr other ↦ inr (r, ground (arith, other, given), d)
]

children_of_each_total :
    (ids : List String) (t : List WorkflowStatus)
    → (all : List String) × (children_of_each ids t ≡ some all)
      × ((c : String) → (any_of all c ≡ true) ↔ Below ids t c)
unfolding children_of_each
children_of_each_total [] t = (
  [],
  refl,
  λ c. (λ m. absurd (unfold any_of in cc), λ (r, given, d). absurd (unfold any_of in cc)),
)
children_of_each_total (x ∷ xs) t =
    let (mine, ends, exactly) = get_workflow_children_descendants x t in
    let (others, ends', exactly') = children_of_each_total xs t in
    (
      mine ++ others,
      ground (arith, ends, ends'),
      λ c. (
        λ m. elim (Bool-cases (any_of mine c)) [
          | inl first_one ↦ (x, any_of_self xs x, (exactly c).0 first_one)
          | inr later ↦
              Below-later x xs t c
                ((exactly' c).0 (ground (arith, m, later, any_of-append mine others c)))
        ],
        λ below. elim (Below-split x xs t c below) [
          | inl d ↦ ground (arith, (exactly c).1 d, any_of-append mine others c)
          | inr rest ↦ ground (arith, (exactly' c).1 rest, any_of-append mine others c)
        ],
      ),
    )

-- A deletion with its children ends on every table, cyclic parents included. The workflows that go are
-- exactly the given ones and all their descendants; every other row is found as before.
pub delete_workflows-Reached :
    (ids : List String) (db : Db)
    → (all : List String) × (db' : Db) × (delete_workflows ids true db ≡ some db')
      × ((c : String) → (any_of all c ≡ true) ↔ Reached ids db.workflow_status c)
      × ((c : String)
          → find_row c db'.workflow_status
            ≡ (if any_of all c then none else find_row c db.workflow_status))
unfolding delete_workflows
delete_workflows-Reached ids db =
    let (below, ends, exactly) = children_of_each_total ids db.workflow_status in
    (
      ids ++ below,
      delete_all (ids ++ below) db,
      ground (arith, ends),
      λ c. (
        λ m. elim (Bool-cases (any_of ids c)) [
          | inl given ↦ inl given
          | inr other ↦ inr ((exactly c).0 (ground (arith, m, other, any_of-append ids below c)))
        ],
        λ reached. elim reached [
          | inl given ↦ ground (arith, given, any_of-append ids below c)
          | inr deep ↦
              ground
                (arith, (exactly c).1 deep, any_of-append ids below c, Bool-cases (any_of ids c))
        ],
      ),
      λ c. find_row-delete_rows (ids ++ below) c db.workflow_status,
    )
