-- ===== src/SysDb/Fork/Failure/Restart.antt =====
-- Where `forkFromFailure` starts a fork, and what the fork then has.
use mathlib.Core.Option
use dbos_transact_ts.Common.{
  ℕ, ◌≤◌, ◌&&◌, ◌==◌, ltb, String, Bool, true, Option, none, some, List, [], ◌∷◌, ◌≡◌, refl, arith,
  All, first, is_some, head, ap, ◌∙◌, if◌then◌else◌, inl, inr, ◌⊎◌, Option-cases,
}
use dbos_transact_ts.SysDb.Schema.{Db, OperationOutput}
use dbos_transact_ts.SysDb.Result.{ok}
use dbos_transact_ts.SysDb.Steps.{find_step}
use dbos_transact_ts.SysDb.Fork.{
  Mapping, ForkOptions, first_of, fork_workflow, bulk_fork_workflows, moved_output,
}
use dbos_transact_ts.SysDb.Fork.Replay.{fork_workflow-steps, mapping}
use dbos_transact_ts.SysDb.Fork.Failure.{
  FailureOptions, max_step, is_step_of, is_failed_step_of, start_step_of, start_each, fork_options,
  fork_from_failure,
}

-- `s` is the number of a row that `p` accepts, and no such row has a larger one.
abbrev pub IsGreatest : (OperationOutput → Bool) → ℕ → List OperationOutput → Type 0
IsGreatest p s t =
    (is_some (first (λ r. p r && r.function_id == s) t) ≡ true)
    × All (λ r. p r ≡ true → r.function_id ≤ s) t

max_step-none :
    (p : OperationOutput → Bool) (t : List OperationOutput) → max_step p t ≡ none → first p t ≡ none
unfolding max_step
max_step-none p [] h = refl
max_step-none p (r ∷ t) h = ground (arith, h, max_step-none p t)

none_above :
    (p : OperationOutput → Bool) (s : ℕ) (t : List OperationOutput)
    → first p t ≡ none
    → All (λ r. p r ≡ true → r.function_id ≤ s) t
none_above p s [] h = tt
none_above p s (r ∷ t) h =
    (λ e. absurd (ground (arith, h, e)), none_above p s t (ground (arith, h)))

max_step_found :
    (p : OperationOutput → Bool) (t : List OperationOutput) (s : ℕ)
    → max_step p t ≡ some s
    → is_some (first (λ r. p r && r.function_id == s) t) ≡ true
unfolding max_step
max_step_found p [] s h = cc
max_step_found p (r ∷ t) s h = elim (Option-cases (max_step p t)) [
  | inl e ↦ ground (arith, h, e)
  | inr (m, e) ↦ ground (arith, h, e, max_step_found p t s)
]

max_step_above :
    (p : OperationOutput → Bool) (t : List OperationOutput) (m s : ℕ)
    → max_step p t ≡ some m
    → m ≤ s
    → All (λ r. p r ≡ true → r.function_id ≤ s) t
unfolding max_step
max_step_above p [] m s h low = tt
max_step_above p (r ∷ t) m s h low = elim (Option-cases (max_step p t)) [
  | inl e ↦ (λ k. ground (arith, h, e, k, low), none_above p s t (max_step-none p t e))
  | inr (n, e) ↦
      (λ k. ground (arith, h, e, k, low), max_step_above p t n s e (ground (arith, h, e, low)))
]

max_step-IsGreatest :
    (p : OperationOutput → Bool) (t : List OperationOutput) (s : ℕ)
    → max_step p t ≡ some s
    → IsGreatest p s t
max_step-IsGreatest p t s h = (max_step_found p t s h, max_step_above p t s s h (omega arith))

-- Where a fork of the last failure starts: at the last step that failed, or at the last step where
-- none did.
abbrev pub IsRestart : String → ℕ → List OperationOutput → Type 0
IsRestart id s t =
    IsGreatest (is_failed_step_of id) s t
    ⊎ ((first (is_failed_step_of id) t ≡ none) × IsGreatest (is_step_of id) s t)

start_step_of-IsRestart :
    (o : FailureOptions) (id : String) (t : List OperationOutput) (s : ℕ)
    → o.from_last_failure ≡ true
    → start_step_of o id t ≡ some s
    → IsRestart id s t
unfolding start_step_of
start_step_of-IsRestart o id t s on h = elim (Option-cases (max_step (is_failed_step_of id) t)) [
  | inl e ↦ inr (
    max_step-none (is_failed_step_of id) t e,
    max_step-IsGreatest (is_step_of id) t s (ground (arith, on, e, h)),
  )
  | inr (m, e) ↦ inl (max_step-IsGreatest (is_failed_step_of id) t s (ground (arith, on, e, h)))
]

fork_from_failure_once :
    (now : ℕ) (id new_id : String) (o : FailureOptions) (others : Db → Db) (db db' : Db)
    (made : List String)
    → o.from_last_failure ≡ true
    → fork_from_failure now (id ∷ []) (new_id ∷ []) o others db ≡ (ok made, db')
    → (s : ℕ) × (start_step_of o id db.operation_outputs ≡ some s)
      × (bulk_fork_workflows now (id ∷ []) (new_id ∷ []) (s ∷ []) (fork_options o) (others db)
          ≡ (ok made, db'))
unfolding fork_from_failure start_each
fork_from_failure_once now id new_id o others db db' made on h =
    elim (Option-cases (start_step_of o id db.operation_outputs)) [
      | inl e ↦ absurd (ground (arith, on, e, h))
      | inr (s, e) ↦ (s, e, ground (arith, on, e, h))
    ]

first_of-head : (ids : List String) (db : Db) → first_of (ok ids, db) ≡ (ok (head ids), db)
first_of-head [] db = refl
first_of-head (x ∷ ids) db = refl

fork_workflow-bulk :
    (now : ℕ) (id new_id : String) (s : ℕ) (o : ForkOptions) (db db' : Db) (made : List String)
    → bulk_fork_workflows now (id ∷ []) (new_id ∷ []) (s ∷ []) o db ≡ (ok made, db')
    → fork_workflow now id new_id s o db ≡ (ok (head made), db')
unfolding fork_workflow
fork_workflow-bulk now id new_id s o db db' made h = ap first_of h ∙ first_of-head made db'

-- With no replacements a copied checkpoint is renamed, and no more.
moved_output_plain :
    (m : Mapping) (x : Option OperationOutput)
    → Option.map (moved_output [] m) x
      ≡ Option.map (λ (r : OperationOutput). record r { workflow_uuid = m.fork_id }) x
unfolding moved_output
moved_output_plain m none = refl
moved_output_plain m (some r) = refl

-- A fork from the last failure of a workflow starts at the last of its steps that failed, or at its
-- last step where none failed: where nobody else writes checkpoints meanwhile and the new id has
-- none, the fork has the original's checkpoints before that step, under its own id, and no others.
pub fork_from_failure-find_step :
    (now : ℕ) (id new_id : String) (o : FailureOptions) (others : Db → Db) (db db' : Db)
    (made : List String)
    → o.from_last_failure ≡ true
    → ((d : Db) → (others d).operation_outputs ≡ d.operation_outputs)
    → fork_from_failure now (id ∷ []) (new_id ∷ []) o others db ≡ (ok made, db')
    → ((fn : ℕ) → find_step new_id fn db.operation_outputs ≡ none)
    → (s : ℕ) × IsRestart id s db.operation_outputs
      × ((fn : ℕ)
          → find_step new_id fn db'.operation_outputs
            ≡ Option.map
                (λ (r : OperationOutput). record r { workflow_uuid = new_id })
                (if ltb fn s then find_step id fn db.operation_outputs else none))
fork_from_failure-find_step now id new_id o others db db' made on quiet h free =
    let (s, started, forked) = fork_from_failure_once now id new_id o others db db' made on h in
    let made_one =
      fork_workflow-bulk now id new_id s (fork_options o) (others db) db' made forked in
    (
      s,
      start_step_of-IsRestart o id db.operation_outputs s on started,
      λ fn.
          let copied =
            (fork_workflow-steps now id new_id s (fork_options o) (others db) (head made) db'
              made_one fn (rw (quiet db) (free fn))).0 in
          rw copied (
            rw (quiet db)
              (moved_output_plain (mapping now id new_id s (fork_options o) (others db)) _)),
    )
