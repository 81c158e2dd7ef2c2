-- ===== src/Tests/Outcomes.antt =====
-- Outcomes, cancellation and the life of a workflow on the test table.
use mathlib.Core.Option
use dbos_transact_ts.SysDb.Manage.{cancel_workflows}
use dbos_transact_ts.SysDb.Family.{
  cancel_workflows_and_children, cancel_loop, get_direct_children, add_all,
}
use dbos_transact_ts.SysDb.Family.Cascade.{Reached, cancel_workflows_and_children-Reached}
use dbos_transact_ts.Common.{
  map, String, none, some, List, [], ◌∷◌, ◌≡◌, ◌≢◌, same_iff, refl, inl, any_of, ◌↔◌, same, true,
}
use dbos_transact_ts.SysDb.Schema.{WorkflowStatus, pending, cancelled, success}
use dbos_transact_ts.SysDb.Rows.{find_row}
use dbos_transact_ts.SysDb.Result.{err, workflow_cancelled}
use dbos_transact_ts.SysDb.Outcome.{record_workflow_outcome}
use dbos_transact_ts.SysDb.Outcome.Completion.{record_workflow_outcome_cancelled}
use dbos_transact_ts.SysDb.Life.{Op, cancels, wakes, apply, run, Allowed, Follows, HasOutcome}
use dbos_transact_ts.SysDb.Life.Runs.{apply-Follows, run_outcome}
use dbos_transact_ts.SysDb.Family.{get_workflow_children}
use dbos_transact_ts.SysDb.Family.Edges.{Descendant}
use dbos_transact_ts.SysDb.Family.Search.{get_workflow_children_descendants}
use dbos_transact_ts.Tests.Fixtures.{table, row}

at_a : find_row "a" table ≡ some (row "a" pending 1)
unfolding find_row same
at_a = refl

abbrev a : String
a = "a"

abbrev c : String
c = "c"

c_not_a : c ≢ a
unfolding same
c_not_a e = let h : same c a ≡ true = (same_iff c a).1 e in cc

at_c : find_row "c" table ≡ some (row "c" cancelled 3)
unfolding find_row same
at_c = refl

record_workflow_outcome_cancelled_example :
    (find_row "c" (record_workflow_outcome 7 "c" success (some "1") none table).1
      ≡ some (row "c" cancelled 3))
    × ((record_workflow_outcome 7 "c" success (some "1") none table).0
        ≡ err (workflow_cancelled "c"))
record_workflow_outcome_cancelled_example =
    record_workflow_outcome_cancelled 7 "c" success (some "1") none table (row "c" cancelled 3) at_c
      refl

apply-Follows_example :
    Follows
      (Allowed (cancels 7 ("a" ∷ [])) "a")
      "a"
      (row "a" pending 1)
      (apply (cancels 7 ("a" ∷ [])) table)
apply-Follows_example = apply-Follows (cancels 7 ("a" ∷ [])) "a" (row "a" pending 1) table at_a

abbrev done : List WorkflowStatus
done = row "d" success 1 ∷ []

abbrev ops : List Op
ops = cancels 7 ("d" ∷ []) ∷ wakes 8 ∷ []

run_outcome_example :
    (r' : WorkflowStatus) × (find_row "d" (run ops done) ≡ some r')
    × HasOutcome r'.status
    × (r'.name ≡ "transfer")
run_outcome_example =
    run_outcome ops "d" (row "d" success 1) done (unfold find_row same in refl) (inl refl)

abbrev family : List WorkflowStatus
family =
    record (row "p" pending 1) { parent_workflow_id = some "q" }
    ∷ record (row "q" pending 2) { parent_workflow_id = some "p" }
    ∷ []

get_workflow_children_descendants_example :
    (result : List String) × (get_workflow_children "p" family ≡ some result)
    × ((c : String) → (any_of result c ≡ true) ↔ Descendant family "p" c)
get_workflow_children_descendants_example = get_workflow_children_descendants "p" family

cancel_workflows_and_children-Reached_example :
    (all : List String) × (cancel_workflows_and_children 7 ("p" ∷ []) true family
      ≡ some (cancel_workflows 7 all family))
    × ((c : String) → (any_of all c ≡ true) ↔ Reached ("p" ∷ []) family c)
cancel_workflows_and_children-Reached_example =
    cancel_workflows_and_children-Reached ("p" ∷ []) family 7

-- Both workflows of the cycle are cancelled.
cancels_cycle :
    Option.map (λ t. map (λ r. r.status) t) (cancel_workflows_and_children 7 ("p" ∷ []) true family)
    ≡ some (cancelled ∷ cancelled ∷ [])
unfolding cancel_workflows_and_children cancel_loop get_direct_children cancel_workflows add_all
    any_of same
cancels_cycle = refl
