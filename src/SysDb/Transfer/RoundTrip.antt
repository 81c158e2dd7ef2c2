-- ===== src/SysDb/Transfer/RoundTrip.antt =====
-- A workflow that is exported from one database and imported into another is there what it was.
use mathlib.Core.List.{append_assoc, append-nil}
use dbos_transact_ts.Common.{
  String, Bool, true, false, none, some, List, [], ◌∷◌, ◌++◌, ◌≡◌, refl, ap, sym, ◌∙◌, arith, same,
  same_iff, same_sym, first, select, select-append, is_some, All, All-imp, All-append, All-select,
  All-select_of, if◌then◌else◌,
}
use dbos_transact_ts.SysDb.Schema.{
  Db, WorkflowStatus, OperationOutput, WorkflowEvent, WorkflowEventHistory, StreamEntry,
}
use dbos_transact_ts.SysDb.Rows.{find_row, has_id, find_row-id}
use dbos_transact_ts.SysDb.Steps.Checkpoints.{first-append_new}
use dbos_transact_ts.SysDb.Result.{ok}
use dbos_transact_ts.SysDb.Manage.{clashes}
use dbos_transact_ts.SysDb.Transfer.{
  ExportedWorkflow, export_one, export_each, export_workflow, insert_each, same_output, same_event,
  same_history, same_entry, import_status, import_one, import_each, import_workflow,
}

module _ {ℓ} {A : Type ℓ} (same_key : A → A → Bool) where
  -- No row has the key of a row before it.
  abbrev pub Distinct : List A → Type 0
  Distinct [] = Unit
  Distinct (r ∷ rs) = All (λ s. same_key s r ≡ false) rs × Distinct rs

  abbrev Apart : List A → List A → Type 0
  Apart rs t = All (λ r. All (λ x. same_key r x ≡ false) t) rs

  first-Apart :
      (r : A) (t : List A) → All (λ x. same_key r x ≡ false) t → first (same_key r) t ≡ none
  first-Apart r [] h = refl
  first-Apart r (x ∷ t) h = ground (arith, h.0, first-Apart r t h.1)

  Apart-append :
      (rs t : List A) (x : A)
      → Apart rs t
      → All (λ s. same_key s x ≡ false) rs
      → Apart rs (t ++ x ∷ [])
  Apart-append [] t x h k = tt
  Apart-append (r ∷ rs) t x h k =
      (All-append (λ y. same_key r y ≡ false) t (x ∷ []) h.0 (k.0, tt), Apart-append rs t x h.1 k.1)

  insert_each_ok :
      (owner : A → String) (ws : List WorkflowStatus) (rs t : List A)
      → Apart rs t
      → Distinct rs
      → All (λ r. is_some (find_row (owner r) ws) ≡ true) rs
      → insert_each same_key owner ws rs t ≡ ok (t ++ rs)
  unfolding insert_each
  insert_each_ok owner ws [] t apart distinct owned = ap (λ (l : List A). ok l) (sym (append-nil t))
  insert_each_ok owner ws (r ∷ rs) t apart distinct owned =
      let rest =
        insert_each_ok owner ws rs (t ++ r ∷ []) (Apart-append rs t r apart.1 distinct.0) distinct.1
          owned.1 in
      let free = first-Apart r t apart.0 in
      let same_list : (t ++ r ∷ []) ++ rs ≡ t ++ r ∷ rs = append_assoc t (r ∷ []) rs in
      ground (arith, free, owned.0, rest, same_list)

  Distinct-select : (p : A → Bool) (t : List A) → Distinct t → Distinct (select p t)
  Distinct-select p [] h = tt
  Distinct-select p (r ∷ t) h =
      elim (p r) as (λ b. Distinct (if b then r ∷ select p t else select p t)) [
        | true ↦ (All-select_of (λ s. same_key s r ≡ false) p t h.0, Distinct-select p t h.1)
        | false ↦ Distinct-select p t h.1
      ]

  -- The rows of one workflow against a table that has none of its rows.
  select-Apart :
      (owner : A → String) (id : String)
      → ((a b : A) → same_key a b ≡ true → same (owner b) (owner a) ≡ true)
      → (t : List A) → All (λ x. same (owner x) id ≡ false) t
      → (rs : List A) → All (λ r. same (owner r) id ≡ true) rs
      → Apart rs t
  select-Apart owner id keyed t absent [] h = tt
  select-Apart owner id keyed t absent (r ∷ rs) h = (
    All-imp (λ x. same (owner x) id ≡ false) (λ x. same_key r x ≡ false)
        (λ x k. ground (arith, k, h.0, keyed r x, same_iff (owner r) id)) t absent,
    select-Apart owner id keyed t absent rs h.1,
  )

  table_imported :
      (owner : A → String) (id : String)
      → ((a b : A) → same_key a b ≡ true → same (owner b) (owner a) ≡ true)
      → (ws : List WorkflowStatus) → is_some (find_row id ws) ≡ true
      → (t : List A) → All (λ x. same (owner x) id ≡ false) t
      → (source : List A) → Distinct source
      → insert_each same_key owner ws (select (λ r. same (owner r) id) source) t
        ≡ ok (t ++ select (λ r. same (owner r) id) source)
  table_imported owner id keyed ws there t absent source distinct =
      let own = All-select (λ r. same (owner r) id) source in
      let rs = select (λ r. same (owner r) id) source in
      insert_each_ok owner ws rs t (select-Apart owner id keyed t absent rs own)
        (Distinct-select (λ r. same (owner r) id) source distinct)
        (All-imp (λ r. same (owner r) id ≡ true) (λ r. is_some (find_row (owner r) ws) ≡ true)
          (λ r k. rw ((same_iff (owner r) id).0 k) there) rs own)

-- What a table keeps of a workflow.
module _ {ℓ} {A : Type ℓ} (p : A → Bool) where
  select-absent : (t : List A) → All (λ x. p x ≡ false) t → select p t ≡ []
  select-absent [] h = refl
  select-absent (x ∷ t) h = ground (arith, h.0, select-absent t h.1)

  select-select : (t : List A) → select p (select p t) ≡ select p t
  select-select [] = refl
  select-select (x ∷ t) = ground (arith, select-select t)

  select-imported :
      (t u : List A) → All (λ x. p x ≡ false) t → select p (t ++ select p u) ≡ select p u
  select-imported t u h =
      select-append p t (select p u)
      ∙ ap (λ (l : List A). l ++ select p (select p u)) (select-absent t h)
      ∙ select-select u

-- The primary keys of the four tables.
abbrev pub IsKeyed : Db → Type 0
IsKeyed db =
    Distinct same_output db.operation_outputs
    × Distinct same_event db.workflow_events
    × Distinct same_history db.workflow_events_history
    × Distinct same_entry db.streams

-- No row of the four tables is of the workflow.
abbrev pub IsAbsent : String → Db → Type 0
IsAbsent id db =
    All (λ o. same o.workflow_uuid id ≡ false) db.operation_outputs
    × All (λ e. same e.workflow_uuid id ≡ false) db.workflow_events
    × All (λ e. same e.workflow_uuid id ≡ false) db.workflow_events_history
    × All (λ s. same s.workflow_uuid id ≡ false) db.streams

module _ (id : String) (r : WorkflowStatus) (source target : Db) where
  abbrev row : WorkflowStatus
  row = record r { owner_xid = none }

  abbrev merged : Db
  merged = record target {
    workflow_status = target.workflow_status ++ row ∷ [];
    operation_outputs =
        target.operation_outputs ++ select (λ o. same o.workflow_uuid id) source.operation_outputs;
    workflow_events =
        target.workflow_events ++ select (λ e. same e.workflow_uuid id) source.workflow_events;
    workflow_events_history =
        target.workflow_events_history
        ++ select (λ e. same e.workflow_uuid id) source.workflow_events_history;
    streams = target.streams ++ select (λ s. same s.workflow_uuid id) source.streams;
  }

  row_imported :
      find_row id source.workflow_status ≡ some r
      → find_row id target.workflow_status ≡ none
      → first (clashes r) target.workflow_status ≡ none
      → (import_status row target.workflow_status ≡ ok (target.workflow_status ++ row ∷ []))
        × (find_row id (target.workflow_status ++ row ∷ []) ≡ some row)
  unfolding import_status find_row
  row_imported found fresh free =
      let mine = find_row-id id source.workflow_status r found in
      let at : r.workflow_uuid ≡ id = (same_iff r.workflow_uuid id).0 mine in
      let last = first-append_new (has_id id) target.workflow_status row fresh mine in
      (rw at (ground (arith, fresh, free)), last)

  workflow_imported :
      find_row id source.workflow_status ≡ some r
      → find_row id target.workflow_status ≡ none
      → first (clashes r) target.workflow_status ≡ none
      → IsKeyed source
      → IsAbsent id target
      → import_one (export_one id r source) target ≡ ok merged
  unfolding import_one export_one
  workflow_imported found fresh free keyed absent =
      let (status, there) = row_imported found fresh free in
      let known : is_some (find_row id (target.workflow_status ++ row ∷ [])) ≡ true =
        rw there refl in
      let ws = target.workflow_status ++ row ∷ [] in
      let outputs =
        table_imported same_output (λ o. o.workflow_uuid) id
          (λ a b k. ground (arith, k, same_sym a.workflow_uuid b.workflow_uuid)) ws known
          target.operation_outputs absent.0 source.operation_outputs keyed.0 in
      let events =
        table_imported same_event (λ e. e.workflow_uuid) id
          (λ a b k. ground (arith, k, same_sym a.workflow_uuid b.workflow_uuid)) ws known
          target.workflow_events absent.1 source.workflow_events keyed.1 in
      let history =
        table_imported same_history (λ e. e.workflow_uuid) id
          (λ a b k. ground (arith, k, same_sym a.workflow_uuid b.workflow_uuid)) ws known
          target.workflow_events_history absent.2 source.workflow_events_history keyed.2 in
      let streams =
        table_imported same_entry (λ s. s.workflow_uuid) id
          (λ a b k. ground (arith, k, same_sym a.workflow_uuid b.workflow_uuid)) ws known
          target.streams absent.3 source.streams keyed.3 in
      rw (status, outputs, events, history, streams) refl

  exported_again :
      find_row id source.workflow_status ≡ some r
      → find_row id target.workflow_status ≡ none
      → first (clashes r) target.workflow_status ≡ none
      → IsAbsent id target
      → export_one id row merged ≡ export_one id r source
  unfolding export_one
  exported_again found fresh free absent =
      let outputs =
        select-imported (λ (o : OperationOutput). same o.workflow_uuid id) target.operation_outputs
          source.operation_outputs absent.0 in
      let events =
        select-imported (λ (e : WorkflowEvent). same e.workflow_uuid id) target.workflow_events
          source.workflow_events absent.1 in
      let history =
        select-imported (λ (e : WorkflowEventHistory). same e.workflow_uuid id)
          target.workflow_events_history source.workflow_events_history absent.2 in
      let streams =
        select-imported (λ (s : StreamEntry). same s.workflow_uuid id) target.streams source.streams
          absent.3 in
      rw (outputs, events, history, streams) refl

  -- Exporting a workflow and importing it into a database that has no row of it succeeds, if the
  -- rows of the source respect their primary keys and no workflow of the target holds the
  -- deduplication ID in its queue; and exporting it from there yields the same export.
  pub import_workflow-export_workflow :
      find_row id source.workflow_status ≡ some r
      → find_row id target.workflow_status ≡ none
      → first (clashes r) target.workflow_status ≡ none
      → IsKeyed source
      → IsAbsent id target
      → (w : ExportedWorkflow) × (export_workflow id false source ≡ some (ok (w ∷ [])))
        × ((import_workflow (w ∷ []) target).0 ≡ ok tt)
        × (export_workflow id false (import_workflow (w ∷ []) target).1 ≡ some (ok (w ∷ [])))
  unfolding export_workflow export_each import_workflow import_each
  import_workflow-export_workflow found fresh free keyed absent =
      let imported = workflow_imported found fresh free keyed absent in
      let again = exported_again found fresh free absent in
      let there = (row_imported found fresh free).1 in
      (
        export_one id r source,
        ground (arith, found),
        ground (arith, imported),
        ground (arith, imported, there, again),
      )
