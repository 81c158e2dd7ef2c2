-- ===== src/SysDb/Debounce.antt =====
-- `debounceDelayedWorkflow`: a further call of a debounced workflow that still waits replaces its
-- input and puts its start off. The statement and the query after it are one transaction.
pub mod Bounce
use mathlib.Core.Option
use dbos_transact_ts.Common.{
  ℕ, String, Bool, true, false, ◌&&◌, Option, none, some, List, same, same_column, column_is,
  if◌then◌else◌, update, first, ltb, ◌≡◌,
}
use dbos_transact_ts.SysDb.Schema.{WorkflowStatus, delayed, status_eq}
use dbos_transact_ts.SysDb.Init.{null_if_empty}

pub record DebounceParams : Type 0 where
  pub workflow_name : String
  pub workflow_class_name : String
  pub queue_name : String
  pub deduplication_id : String
  pub delay_until_epoch_ms : ℕ
  pub input : Option String
  pub serialization : Option String

pub record DebounceResult : Type 0 where
  pub bounced_workflow_id : Option String
  pub holder_workflow_id : Option String
  pub holder_is_debounced : Bool
  pub holder_workflow_name : Option String
  pub holder_workflow_class_name : Option String

abbrev pub no_holder : DebounceResult
no_holder = record {
  bounced_workflow_id = none;
  holder_workflow_id = none;
  holder_is_debounced = false;
  holder_workflow_name = none;
  holder_workflow_class_name = none;
}

-- `queue_name = $1 AND deduplication_id = $2`
abbrev pub holds : DebounceParams → WorkflowStatus → Bool
holds p r = column_is r.queue_name p.queue_name && column_is r.deduplication_id p.deduplication_id

-- The `WHERE` clause of the `UPDATE`.
abbrev pub bounces : DebounceParams → WorkflowStatus → Bool
bounces p r =
    same r.name p.workflow_name
    && same_column r.class_name (null_if_empty p.workflow_class_name)
    && holds p r
    && status_eq r.status delayed
    && r.is_debounced

-- The delay, which the deadline of the debouncing caps.
abbrev pub capped : Option ℕ → ℕ → ℕ
capped none until = until
capped (some deadline) until = if ltb deadline until then deadline else until

abbrev pub bounced : ℕ → DebounceParams → WorkflowStatus → WorkflowStatus
bounced now p r = record r {
  delay_until_epoch_ms = some (capped r.debounce_deadline_epoch_ms p.delay_until_epoch_ms);
  inputs = p.input;
  serialization = p.serialization;
  updated_at = now;
}

abbrev pub held_by : Option WorkflowStatus → DebounceResult
held_by none = no_holder
held_by (some r) = record {
  bounced_workflow_id = none;
  holder_workflow_id = some r.workflow_uuid;
  holder_is_debounced = r.is_debounced;
  holder_workflow_name = some r.name;
  holder_workflow_class_name = r.class_name;
}

unfoldable pub debounce_delayed_workflow :
    ℕ → DebounceParams → List WorkflowStatus → DebounceResult × List WorkflowStatus
debounce_delayed_workflow now p t = elim (first (bounces p) t) [
  | some r ↦ (
    record no_holder { bounced_workflow_id = some r.workflow_uuid },
    update (bounces p) (bounced now p) t,
  )
  | none ↦ (held_by (first (holds p) t), update (bounces p) (bounced now p) t)
]
