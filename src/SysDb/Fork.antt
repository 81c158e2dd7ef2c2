-- ===== src/SysDb/Fork.antt =====
-- `forkWorkflow`, `forkFromFailure` and `bulkForkWorkflows`: a new workflow starts from the
-- checkpoints, the streams and the events that another had before a step. The ids of the forks are
-- new (`randomUUID`, or the caller's), so that by the foreign keys no other row stands under them;
-- only the row of `workflow_status` is checked for a conflict.
pub mod Failure
pub mod Replay
pub mod Runs
use mathlib.Core.Option
use dbos_transact_ts.Common.{
  ℕ, zero, String, Bool, true, false, ◌&&◌, not, Option, none, some, List, [], ◌∷◌, ◌++◌, map, same,
  ltb, column_is, if◌then◌else◌, is_some, or_else, first, select, update, any_of,
}
use dbos_transact_ts.SysDb.Schema.{
  Db, WorkflowStatus, OperationOutput, StreamEntry, WorkflowEvent, WorkflowEventHistory, enqueued,
}
use dbos_transact_ts.SysDb.Rows.{find_row}
use dbos_transact_ts.SysDb.Result.{
  Result, ok, err, nonexistent_workflow, unique_violation, bad_request,
}
use dbos_transact_ts.SysDb.Manage.{internal_queue_name}
use dbos_transact_ts.SysDb.Steps.{rollback}

-- `options`; the replacements are pairs of an old and a new id.
pub record ForkOptions : Type 0 where
  pub application_version : Option String
  pub timeout_ms : Option ℕ
  pub queue_name : Option String
  pub queue_partition_key : Option String
  pub replacement_children : List (String × String)

-- An entry of `forkMappings`.
pub record Mapping : Type 0 where
  pub orig_id : String
  pub fork_id : String
  pub start_step : ℕ

-- The three arrays, if they have the same length.
unfoldable pub mappings : List String → List String → List ℕ → Option (List Mapping)
mappings [] [] [] = some []
mappings (o ∷ os) (f ∷ fs) (s ∷ ss) =
    Option.map (λ ms. record { orig_id = o; fork_id = f; start_step = s } ∷ ms) (mappings os fs ss)
mappings _ _ _ = none

-- The row of a fork; the columns that the statement does not name take their defaults.
unfoldable pub forked_row : ℕ → ForkOptions → Mapping → WorkflowStatus → WorkflowStatus
forked_row now o m ws = record {
  workflow_uuid = m.fork_id;
  status = enqueued;
  name = ws.name;
  class_name = ws.class_name;
  config_name = ws.config_name;
  queue_name = some (or_else o.queue_name internal_queue_name);
  caller = record ws.caller { schedule_name = none };
  output = none;
  error = none;
  executor_id = none;
  application_version =
      if is_some o.application_version then o.application_version else ws.application_version;
  created_at = now;
  updated_at = now;
  recovery_attempts = 0;
  workflow_timeout_ms = o.timeout_ms;
  workflow_deadline_epoch_ms = none;
  inputs = ws.inputs;
  started_at_epoch_ms = none;
  deduplication_id = none;
  priority = 0;
  queue_partition_key = o.queue_partition_key;
  forked_from = some m.orig_id;
  was_forked_from = false;
  owner_xid = none;
  parent_workflow_id = none;
  serialization = ws.serialization;
  delay_until_epoch_ms = none;
  rate_limited = false;
  completed_at = none;
  debounce_deadline_epoch_ms = none;
  is_debounced = false;
}

-- The rows of the forks; a workflow that is not among the originals that were read is an error.
unfoldable pub forked_rows :
    ℕ → ForkOptions → List Mapping → List WorkflowStatus → Result (List WorkflowStatus)
unfolding forked_row find_row
forked_rows now o [] t = ok []
forked_rows now o (m ∷ ms) t =
    let rest = forked_rows now o ms t in
    elim (find_row m.orig_id t) [
      | none ↦ err (nonexistent_workflow m.orig_id)
      | some ws ↦ elim rest [ err e ↦ err e | ok rows ↦ ok (forked_row now o m ws ∷ rows) ]
    ]

-- The `INSERT` of several rows, of which none may be there.
unfoldable pub insert_rows :
    List WorkflowStatus → List WorkflowStatus → Result (List WorkflowStatus)
unfolding find_row
insert_rows [] t = ok t
insert_rows (r ∷ rs) t =
    let rest = insert_rows rs (t ++ r ∷ []) in
    if is_some (find_row r.workflow_uuid t) then err unique_violation else rest

-- `WHERE workflow_uuid = ANY($1)`
unfoldable pub mark_forked : List Mapping → List WorkflowStatus → List WorkflowStatus
mark_forked ms t =
    update (λ r. any_of (map (λ m. m.orig_id) ms) r.workflow_uuid)
      (λ r. record r { was_forked_from = true }) t

-- `JOIN t ON t.workflow_uuid = m.orig_id AND t.function_id < m.start_step`
abbrev pub joined {ℓ} : {A : Type ℓ} → (A → String) → (A → ℕ) → Mapping → List A → List A
joined owner step m t = select (λ r. same (owner r) m.orig_id && ltb (step r) m.start_step) t

abbrev pub copies {ℓ} :
    {A : Type ℓ} → (A → String) → (A → ℕ) → (Mapping → A → A) → List Mapping → List A → List A
copies owner step moved [] t = []
copies owner step moved (m ∷ ms) t =
    map (moved m) (joined owner step m t) ++ copies owner step moved ms t

-- `CASE WHEN child_workflow_id = ... THEN ... ELSE child_workflow_id END`
unfoldable pub replace_child : List (String × String) → Option String → Option String
replace_child [] child = child
replace_child (p ∷ ps) child = if column_is child p.0 then some p.1 else replace_child ps child

unfoldable pub moved_output : List (String × String) → Mapping → OperationOutput → OperationOutput
unfolding replace_child
moved_output replacements m r = record r {
  workflow_uuid = m.fork_id;
  child_workflow_id = replace_child replacements r.child_workflow_id;
}

-- A row of the history with the fork that it is for.
abbrev pub Ranked : Type 0
Ranked = Mapping × WorkflowEventHistory

abbrev pub joined_history : List Mapping → List WorkflowEventHistory → List Ranked
joined_history [] t = []
joined_history (m ∷ ms) t =
    map (λ e. (m, e)) (joined (λ r. r.workflow_uuid) (λ r. r.function_id) m t)
    ++ joined_history ms t

-- `PARTITION BY weh.workflow_uuid, weh.key`
abbrev pub same_partition : Ranked → Ranked → Bool
same_partition x y = same x.1.workflow_uuid y.1.workflow_uuid && same x.1.key y.1.key

-- `ORDER BY weh.function_id DESC`: no row of the partition comes before.
abbrev pub is_last_of_key : List Ranked → Ranked → Bool
is_last_of_key all x =
    not (is_some (first (λ y. same_partition y x && ltb x.1.function_id y.1.function_id) all))

-- `rn = 1`: one row of each partition.
unfoldable pub one_each : List Ranked → List Ranked
one_each [] = []
one_each (x ∷ xs) = x ∷ select (λ y. not (same_partition x y)) (one_each xs)

abbrev pub ranked_first : List Ranked → List Ranked
ranked_first all = one_each (select (is_last_of_key all) all)

abbrev pub forked_event : Ranked → WorkflowEvent
forked_event x = record {
  workflow_uuid = x.0.fork_id;
  key = x.1.key;
  value = x.1.value;
  serialization = x.1.serialization;
}

-- `.filter((m) => m.startStep > 0)`
abbrev pub fork_mappings : List Mapping → List Mapping
fork_mappings ms = select (λ m. ltb 0 m.start_step) ms

-- The four copies.
unfoldable pub copy_steps : List (String × String) → List Mapping → Db → Db
unfolding moved_output one_each
copy_steps replacements ms db = record db {
  operation_outputs =
      db.operation_outputs
      ++ copies (λ r. r.workflow_uuid) (λ r. r.function_id) (moved_output replacements) ms
          db.operation_outputs;
  streams =
      db.streams
      ++ copies (λ r. r.workflow_uuid) (λ r. r.function_id)
          (λ m r. record r { workflow_uuid = m.fork_id }) ms db.streams;
  workflow_events_history =
      db.workflow_events_history
      ++ copies (λ r. r.workflow_uuid) (λ r. r.function_id)
          (λ m r. record r { workflow_uuid = m.fork_id }) ms db.workflow_events_history;
  workflow_events =
      db.workflow_events
      ++ map forked_event (ranked_first (joined_history ms db.workflow_events_history));
}

-- The statements of the transaction, on rows that were read and built.
abbrev pub insert_forks :
    ForkOptions → List Mapping → Db → Result (List WorkflowStatus) → Result (Unit {0}) × Db
insert_forks o ms db (err e) = (err e, db)
insert_forks o ms db (ok t) = (
  ok tt,
  copy_steps o.replacement_children (fork_mappings ms)
      (record db { workflow_status = mark_forked ms t }),
)

abbrev pub fork_rows :
    ForkOptions → List Mapping → Db → Result (List WorkflowStatus) → Result (Unit {0}) × Db
fork_rows o ms db (err e) = (err e, db)
fork_rows o ms db (ok rows) = insert_forks o ms db (insert_rows rows db.workflow_status)

abbrev pub forked_ids : List String → Result (Unit {0}) × Db → Result (List String) × Db
forked_ids ids (err e, db) = (err e, db)
forked_ids ids (ok _, db) = (ok ids, db)

unfoldable pub bulk_fork_workflows :
    ℕ → List String → List String → List ℕ → ForkOptions → Db → Result (List String) × Db
unfolding mappings forked_rows insert_rows mark_forked copy_steps
bulk_fork_workflows now [] forked starts o db = (ok [], db)
bulk_fork_workflows now (x ∷ xs) forked starts o db = elim (mappings (x ∷ xs) forked starts) [
  | none ↦ (err bad_request, db)
  | some ms ↦
      rollback db (forked_ids forked (fork_rows o ms db (forked_rows now o ms db.workflow_status)))
]

abbrev pub first_of : Result (List String) × Db → Result (Option String) × Db
first_of (err e, db) = (err e, db)
first_of (ok [], db) = (ok none, db)
first_of (ok (x ∷ xs), db) = (ok (some x), db)

-- `new_id` is the caller's, or what `randomUUID` yields.
unfoldable pub fork_workflow :
    ℕ → String → String → ℕ → ForkOptions → Db → Result (Option String) × Db
unfolding bulk_fork_workflows
fork_workflow now id new_id start_step o db =
    first_of (bulk_fork_workflows now (id ∷ []) (new_id ∷ []) (start_step ∷ []) o db)
