-- ===== src/SysDb/Debounce/Bounce.antt =====
-- What a debounce does to the workflow that it meets, and to the others.
use dbos_transact_ts.Common.{
  min, ℕ, String, false, Option, none, some, List, ◌≡◌, refl, arith, first, first_sound, update,
  Option-cases, inl, inr,
}
use dbos_transact_ts.SysDb.Schema.{WorkflowStatus}
use dbos_transact_ts.SysDb.Rows.{find_row, find_row-update}
use dbos_transact_ts.SysDb.Debounce.{
  DebounceParams, bounces, bounced, capped, no_holder, debounce_delayed_workflow,
}

module _ (now : ℕ) (p : DebounceParams) (t : List WorkflowStatus) where
  pub debounced_table : (debounce_delayed_workflow now p t).1 ≡ update (bounces p) (bounced now p) t
  unfolding debounce_delayed_workflow
  debounced_table = elim (Option-cases (first (bounces p) t)) [
    | inl e ↦ ground (arith, e)
    | inr (r, e) ↦ ground (arith, e)
  ]

  -- The time asked for, or the deadline where that comes first.
  abbrev pub due_time : Option ℕ → ℕ
  due_time none = p.delay_until_epoch_ms
  due_time (some deadline) = min deadline p.delay_until_epoch_ms

  capped_lem : (d : Option ℕ) → capped d p.delay_until_epoch_ms ≡ due_time d
  capped_lem none = refl
  capped_lem (some deadline) = ground arith

  -- The first waiting workflow of the debounce key, where it is the row found under its ID, takes
  -- the new input, and is to start at the time asked for, or at its deadline where it has one that
  -- comes first; it is the one that the caller is told of.
  pub debounce_delayed_workflow-bounces :
      (r : WorkflowStatus)
      → first (bounces p) t ≡ some r
      → find_row r.workflow_uuid t ≡ some r
      → ((debounce_delayed_workflow now p t).0
          ≡ record no_holder { bounced_workflow_id = some r.workflow_uuid })
        × (find_row r.workflow_uuid (debounce_delayed_workflow now p t).1
            ≡ some (record r {
              delay_until_epoch_ms = some (due_time r.debounce_deadline_epoch_ms);
              inputs = p.input;
              serialization = p.serialization;
              updated_at = now;
            }))
  unfolding debounce_delayed_workflow
  debounce_delayed_workflow-bounces r met found = (
    ground (arith, met),
    ground (
      arith,
      met,
      found,
      capped_lem r.debounce_deadline_epoch_ms,
      first_sound (bounces p) t r met,
      find_row-update r.workflow_uuid (bounces p) (bounced now p) (λ _. refl) t,
    ),
  )

  -- A workflow of another function or class, or one that no longer waits, is left as it is, even
  -- when it holds the same debounce key.
  pub debounce_delayed_workflow_keeps :
      (k : String) (r : WorkflowStatus)
      → find_row k t ≡ some r
      → bounces p r ≡ false
      → find_row k (debounce_delayed_workflow now p t).1 ≡ some r
  debounce_delayed_workflow_keeps k r found other = ground (
    arith,
    found,
    other,
    debounced_table,
    find_row-update k (bounces p) (bounced now p) (λ _. refl) t,
  )
