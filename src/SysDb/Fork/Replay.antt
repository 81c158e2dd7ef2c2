-- ===== src/SysDb/Fork/Replay.antt =====
-- A fork has the checkpoints of the original before its first step, and no others; it replays them.
use mathlib.Core.Option
use dbos_transact_ts.Common.{
  ℕ, String, Bool, false, Option, none, some, List, [], ◌∷◌, ◌++◌, ◌≡◌, refl, ap, ◌∙◌, map, arith,
  same, same_refl, same_sym, ltb, first, if◌then◌else◌, Option-cases, inl, inr,
}
use dbos_transact_ts.SysDb.Schema.{Db, WorkflowStatus, OperationOutput}
use dbos_transact_ts.SysDb.Rows.{find_row}
use dbos_transact_ts.SysDb.Result.{ok}
use dbos_transact_ts.SysDb.Steps.{find_step, is_step}
use dbos_transact_ts.SysDb.Fork.{
  ForkOptions, Mapping, mappings, forked_row, forked_rows, insert_rows, mark_forked, joined, copies,
  moved_output, replace_child, fork_mappings, copy_steps, bulk_fork_workflows, fork_workflow,
}

first-append_after {ℓ} :
    {A : Type ℓ} (p : A → Bool) (t u : List A) → first p t ≡ none → first p (t ++ u) ≡ first p u
first-append_after p [] u h = refl
first-append_after p (x ∷ t) u h = ground (arith, h, first-append_after p t u)

first-append_past {ℓ} :
    {A : Type ℓ} (p : A → Bool) (t u : List A) → first p u ≡ none → first p (t ++ u) ≡ first p t
first-append_past p [] u h = h
first-append_past p (x ∷ t) u h = ground (arith, first-append_past p t u h)

module _ (replacements : List (String × String)) (m : Mapping) (fn : ℕ) where
  -- The checkpoints that a fork gets, looked up under its own id.
  first-joined :
      (t : List OperationOutput)
      → first (is_step m.fork_id fn) (
          map
            (moved_output replacements m)
            (joined (λ r. r.workflow_uuid) (λ r. r.function_id) m t))
        ≡ Option.map
            (moved_output replacements m)
            (if ltb fn m.start_step then first (is_step m.orig_id fn) t else none)
  unfolding moved_output
  first-joined [] = ground arith
  first-joined (r ∷ t) = ground (arith, first-joined t, same_refl m.fork_id)

  -- Another workflow's checkpoints are not among them.
  first-joined_other :
      (id : String)
      → same m.fork_id id ≡ false
      → (t : List OperationOutput)
      → first (is_step id fn) (
          map
            (moved_output replacements m)
            (joined (λ r. r.workflow_uuid) (λ r. r.function_id) m t))
        ≡ none
  unfolding moved_output
  first-joined_other id apart [] = refl
  first-joined_other id apart (r ∷ t) = ground (arith, apart, first-joined_other id apart t)

-- The id that the caller puts in the place of a child: the first one given for it, or its own.
abbrev pub replacement : List (String × String) → String → String
replacement rs child = elim (first (λ p. same p.0 child) rs) [ none ↦ child | some p ↦ p.1 ]

-- A checkpoint as a fork is to have it.
abbrev pub copy_of : String → List (String × String) → OperationOutput → OperationOutput
copy_of new_id rs r = record r {
  workflow_uuid = new_id;
  child_workflow_id = Option.map (replacement rs) r.child_workflow_id;
}

replace_child_lem :
    (rs : List (String × String)) (child : Option String)
    → replace_child rs child ≡ Option.map (replacement rs) child
unfolding replace_child
replace_child_lem [] none = refl
replace_child_lem [] (some c) = refl
replace_child_lem (p ∷ rs) none = ground (arith, replace_child_lem rs none)
replace_child_lem (p ∷ rs) (some c) = ground (arith, same_sym p.0 c, replace_child_lem rs (some c))

moved_output_lem :
    (rs : List (String × String)) (m : Mapping) (x : Option OperationOutput)
    → Option.map (moved_output rs m) x ≡ Option.map (copy_of m.fork_id rs) x
unfolding moved_output
moved_output_lem rs m none = refl
moved_output_lem rs m (some r) =
    ap (λ c. some (record r { workflow_uuid = m.fork_id; child_workflow_id = c }))
      (replace_child_lem rs r.child_workflow_id)

module _ (now : ℕ) (id new_id : String) (start_step : ℕ) (o : ForkOptions) (db : Db) where
  abbrev pub mapping : Mapping
  mapping = record { orig_id = id; fork_id = new_id; start_step = start_step }

  -- The tables that a fork leaves, from the row of its original.
  abbrev pub forked_tables : WorkflowStatus → Db
  forked_tables ws = copy_steps o.replacement_children (fork_mappings (mapping ∷ [])) (record db {
    workflow_status =
        mark_forked (mapping ∷ []) (db.workflow_status ++ forked_row now o mapping ws ∷ []);
  })

  rows_built :
      (ws : WorkflowStatus)
      → find_row id db.workflow_status ≡ some ws
      → forked_rows now o (mapping ∷ []) db.workflow_status ≡ ok (forked_row now o mapping ws ∷ [])
  unfolding forked_rows
  rows_built ws e = ground (arith, e)

  rows_inserted :
      (ws : WorkflowStatus)
      → find_row new_id db.workflow_status ≡ none
      → insert_rows (forked_row now o mapping ws ∷ []) db.workflow_status
        ≡ ok (db.workflow_status ++ forked_row now o mapping ws ∷ [])
  unfolding insert_rows forked_row
  rows_inserted ws free = ground (arith, free)

  fork_workflow_done :
      (ws : WorkflowStatus)
      → find_row id db.workflow_status ≡ some ws
      → find_row new_id db.workflow_status ≡ none
      → fork_workflow now id new_id start_step o db ≡ (ok (some new_id), forked_tables ws)
  unfolding fork_workflow bulk_fork_workflows mappings
  fork_workflow_done ws e free =
      let built = rows_built ws e in
      let inserted = rows_inserted ws free in rw (built, inserted) refl

  pub fork_workflow-ok :
      (made : Option String) (db' : Db)
      → fork_workflow now id new_id start_step o db ≡ (ok made, db')
      → (ws : WorkflowStatus) × (find_row id db.workflow_status ≡ some ws)
        × (find_row new_id db.workflow_status ≡ none)
        × (made ≡ some new_id)
        × (db' ≡ forked_tables ws)
  unfolding fork_workflow bulk_fork_workflows mappings forked_rows insert_rows
  fork_workflow-ok made db' h = elim (Option-cases (find_row id db.workflow_status)) [
    | inl e ↦ ground (arith, h, e)
    | inr (ws, e) ↦ elim (Option-cases (find_row new_id db.workflow_status)) [
      | inl free ↦ let done = fork_workflow_done ws e free in (ws, e, free, cc, cc)
      | inr (other, taken) ↦ ground (arith, h, e, taken)
    ]
  ]

  copied_steps : List OperationOutput
  copied_steps =
      copies (λ r. r.workflow_uuid) (λ r. r.function_id) (moved_output o.replacement_children)
        (fork_mappings (mapping ∷ [])) db.operation_outputs

  first-copied_steps :
      (fn : ℕ)
      → first (is_step new_id fn) copied_steps
        ≡ Option.map
            (moved_output o.replacement_children mapping)
            (if ltb fn start_step then find_step id fn db.operation_outputs else none)
  unfolding copied_steps find_step
  first-copied_steps fn =
      let there = first-joined o.replacement_children mapping fn db.operation_outputs in
      let alone =
        first-append_past (is_step new_id fn)
          (map (moved_output o.replacement_children mapping)
            (joined (λ r. r.workflow_uuid) (λ r. r.function_id) mapping db.operation_outputs))
          [] refl in
      ground (arith, there, alone)

  first-copied_steps_other :
      (fn : ℕ) (id' : String) → same new_id id' ≡ false → first (is_step id' fn) copied_steps ≡ none
  unfolding copied_steps
  first-copied_steps_other fn id' apart =
      let there =
        first-joined_other o.replacement_children mapping fn id' apart db.operation_outputs in
      let alone =
        first-append_past (is_step id' fn)
          (map (moved_output o.replacement_children mapping)
            (joined (λ r. r.workflow_uuid) (λ r. r.function_id) mapping db.operation_outputs))
          [] refl in
      ground (arith, there, alone)

  forked_outputs :
      (made : Option String) (db' : Db)
      → fork_workflow now id new_id start_step o db ≡ (ok made, db')
      → db'.operation_outputs ≡ db.operation_outputs ++ copied_steps
  unfolding copied_steps copy_steps
  forked_outputs made db' h =
      let (_, _, _, _, at) = fork_workflow-ok made db' h in ap (λ (d : Db). d.operation_outputs) at

  -- The steps under the fork's id, and under the others.
  pub fork_workflow-steps :
      (made : Option String) (db' : Db)
      → fork_workflow now id new_id start_step o db ≡ (ok made, db')
      → (fn : ℕ) → find_step new_id fn db.operation_outputs ≡ none
      → (find_step new_id fn db'.operation_outputs
          ≡ Option.map
              (moved_output o.replacement_children mapping)
              (if ltb fn start_step then find_step id fn db.operation_outputs else none))
        × ((id' : String)
            → same new_id id' ≡ false
            → find_step id' fn db'.operation_outputs ≡ find_step id' fn db.operation_outputs)
  unfolding find_step
  fork_workflow-steps made db' h fn free =
      let outputs = forked_outputs made db' h in
      (
        rw outputs (
            first-append_after (is_step new_id fn) db.operation_outputs copied_steps free
            ∙ first-copied_steps fn),
        λ id' apart. rw outputs (
            first-append_past (is_step id' fn) db.operation_outputs copied_steps
              (first-copied_steps_other fn id' apart)),
      )

  -- A fork that is made has, under its own id, exactly the checkpoints that the original has before
  -- the first step to run, where none stood there before, and every other workflow keeps its own. A copied checkpoint differs in
  -- its workflow, and in the child workflow where the caller replaces it.
  pub fork_workflow-find_step :
      (made : Option String) (db' : Db)
      → fork_workflow now id new_id start_step o db ≡ (ok made, db')
      → (fn : ℕ) → find_step new_id fn db.operation_outputs ≡ none
      → (find_step new_id fn db'.operation_outputs
          ≡ Option.map
              (copy_of new_id o.replacement_children)
              (if ltb fn start_step then find_step id fn db.operation_outputs else none))
        × ((id' : String)
            → same new_id id' ≡ false
            → find_step id' fn db'.operation_outputs ≡ find_step id' fn db.operation_outputs)
  fork_workflow-find_step made db' h fn free =
      let (copied, others) = fork_workflow-steps made db' h fn free in
      (copied ∙ moved_output_lem o.replacement_children mapping _, others)
