-- ===== src/SysDb/Family.antt =====
-- Workflows and their children: `#getDirectChildren`, the breadth-first search of
-- `getWorkflowChildren`, the cascade of `cancelWorkflows`, and `deleteWorkflows`. A set of texts is
-- a list without repetitions, in the order of insertion. The loops take fuel; `none` means that it
-- ran out, which `Family.Search` excludes for the fuel that the callers give.
pub mod Edges
pub mod Rounds
pub mod Search
pub mod Cascade
pub mod Deletion
use mathlib.Core.Option
use dbos_transact_ts.Common.{
  delete, map, ℕ, zero, suc, ◌+◌, String, Bool, true, false, not, Option, none, some, List, [], ◌∷◌,
  ◌++◌, map, select, delete, any_of, length, if◌then◌else◌,
}
use dbos_transact_ts.SysDb.Schema.{Db, WorkflowStatus, OperationOutput}
use dbos_transact_ts.SysDb.Manage.{cancel_workflows, delete_rows}

-- `parent_workflow_id = ANY($1)`
abbrev pub has_parent_in : List String → WorkflowStatus → Bool
has_parent_in ids r = elim r.parent_workflow_id [ none ↦ false | some p ↦ any_of ids p ]

unfoldable pub get_direct_children : List String → List WorkflowStatus → List String
get_direct_children [] t = []
get_direct_children (x ∷ xs) t = map (λ r. r.workflow_uuid) (select (has_parent_in (x ∷ xs)) t)

-- `children.filter((id) => !visited.has(id))`
abbrev pub unseen : List String → List String → List String
unseen visited ids = select (λ id. not (any_of visited id)) ids

-- `for (const id of frontier) visited.add(id)`
unfoldable pub add_all : List String → List String → List String
add_all visited [] = visited
add_all visited (x ∷ xs) = add_all (if any_of visited x then visited else visited ++ x ∷ []) xs

unfoldable pub children_loop :
    ℕ → List String → List String → List WorkflowStatus → Option (List String)
children_loop zero frontier descendants t = none
children_loop (suc fuel) [] descendants t = some descendants
children_loop (suc fuel) (x ∷ xs) descendants t =
    let next = unseen descendants (get_direct_children (x ∷ xs) t) in
    children_loop fuel next (add_all descendants next) t

unfoldable pub get_workflow_children : String → List WorkflowStatus → Option (List String)
get_workflow_children id t = children_loop (length t + 2) (id ∷ []) [] t

unfoldable pub cancel_loop :
    ℕ → ℕ → List String → List String → List WorkflowStatus → Option (List WorkflowStatus)
cancel_loop zero now frontier visited t = none
cancel_loop (suc fuel) now [] visited t = some t
cancel_loop (suc fuel) now (x ∷ xs) visited t =
    let t' = cancel_workflows now (x ∷ xs) t in
    let next = unseen visited (get_direct_children (x ∷ xs) t') in
    cancel_loop fuel now next (add_all visited next) t'

unfoldable pub cancel_workflows_and_children :
    ℕ → List String → Bool → List WorkflowStatus → Option (List WorkflowStatus)
cancel_workflows_and_children now ids false t = some (cancel_workflows now ids t)
cancel_workflows_and_children now ids true t = cancel_loop (length t + 2) now ids (add_all [] ids) t

-- The children of each of the workflows, one search after the other.
unfoldable pub children_of_each : List String → List WorkflowStatus → Option (List String)
unfolding get_workflow_children
children_of_each [] t = some []
children_of_each (x ∷ xs) t =
    let rest = children_of_each xs t in
    elim (get_workflow_children x t) [
      | none ↦ none
      | some children ↦ Option.map (λ ids. children ++ ids) rest
    ]

-- The rows go, and with them all that refers to them (`ON DELETE CASCADE`).
abbrev pub delete_all : List String → Db → Db
delete_all ids db = record db {
  workflow_status = delete_rows ids db.workflow_status;
  operation_outputs = delete (λ o. any_of ids o.workflow_uuid) db.operation_outputs;
  notifications = delete (λ n. any_of ids n.destination_uuid) db.notifications;
  workflow_events = delete (λ e. any_of ids e.workflow_uuid) db.workflow_events;
  workflow_events_history = delete (λ e. any_of ids e.workflow_uuid) db.workflow_events_history;
  streams = delete (λ s. any_of ids s.workflow_uuid) db.streams;
}

-- The registry of running workflows is not part of the tables.
unfoldable pub delete_workflows : List String → Bool → Db → Option Db
unfolding children_of_each delete_rows
delete_workflows ids false db = some (delete_all ids db)
delete_workflows ids true db =
    Option.map (λ children. delete_all (ids ++ children) db)
      (children_of_each ids db.workflow_status)
