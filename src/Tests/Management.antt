-- ===== src/Tests/Management.antt =====
-- Recovery and garbage collection on the test table.
use mathlib.Core.Option
use dbos_transact_ts.SysDb.Schema.{Db}
use dbos_transact_ts.SysDb.Manage.{delete_rows}
use dbos_transact_ts.SysDb.Family.{
  delete_workflows, children_of_each, get_workflow_children, children_loop, get_direct_children,
  add_all,
}
use dbos_transact_ts.SysDb.Family.Cascade.{Reached}
use dbos_transact_ts.SysDb.Family.Deletion.{delete_workflows-Reached}
use dbos_transact_ts.Common.{
  String, any_of, true, ◌↔◌, if◌then◌else◌, map, none, some, List, [], ◌∷◌, ◌≡◌, refl, same,
}
use dbos_transact_ts.SysDb.Schema.{WorkflowStatus, success, enqueued}
use dbos_transact_ts.SysDb.Rows.{find_row}
use dbos_transact_ts.Tests.Fixtures.{db, row}

abbrev past : List WorkflowStatus
past = row "x" success 1 ∷ row "y" success 2 ∷ row "z" enqueued 1 ∷ []

abbrev tree : Db
tree = record db {
  workflow_status =
      row "p" success 1
      ∷ record (row "q" success 2) { parent_workflow_id = some "p" }
      ∷ row "o" success 3
      ∷ [];
}

delete_workflows-Reached_example :
    (all : List String) × (db' : Db) × (delete_workflows ("p" ∷ []) true tree ≡ some db')
    × ((c : String) → (any_of all c ≡ true) ↔ Reached ("p" ∷ []) tree.workflow_status c)
    × ((c : String)
        → find_row c db'.workflow_status
          ≡ (if any_of all c then none else find_row c tree.workflow_status))
delete_workflows-Reached_example = delete_workflows-Reached ("p" ∷ []) tree

-- The parent and its child go, the other workflow stays.
deletes_tree :
    Option.map
      (λ d. map (λ r. r.workflow_uuid) d.workflow_status)
      (delete_workflows ("p" ∷ []) true tree)
    ≡ some ("o" ∷ [])
unfolding delete_workflows children_of_each get_workflow_children children_loop get_direct_children
    add_all delete_rows any_of same
deletes_tree = refl
