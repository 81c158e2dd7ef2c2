-- ===== src/SysDb/Events.antt =====
-- Events of a workflow (`workflow_events` and its history): `setEvent` and `getEvent`. An event's
-- value is its serialized text.
pub mod Values
pub mod Reads
use dbos_transact_ts.Common.{
  ℕ, ◌+◌, ◌*◌, ◌==◌, String, Bool, true, false, ◌&&◌, Option, none, some, List, [], ◌∷◌, ◌++◌, same,
  if◌then◌else◌, is_some, first, update,
}
use mathlib.Core.Option
use dbos_transact_ts.SysDb.Schema.{Db, WorkflowEvent, WorkflowEventHistory}
use dbos_transact_ts.SysDb.Rows.{find_row}
use dbos_transact_ts.SysDb.Result.{Result, ok, err, foreign_key_violation, not_null_violation}
use dbos_transact_ts.SysDb.Steps.{
  rollback, no_output, record_operation_result, run_and_record_result, then_return,
  get_operation_result_and_throw_if_cancelled,
}
use dbos_transact_ts.SysDb.Polling.{
  poll, Course, Received, received_options, replay_value, deadline,
}

abbrev pub funcname_set_event : String
funcname_set_event = "DBOS.setEvent"

abbrev pub funcname_get_event : String
funcname_get_event = "DBOS.getEvent"

abbrev pub is_event : String → String → WorkflowEvent → Bool
is_event id key e = same e.workflow_uuid id && same e.key key

unfoldable pub find_event : String → String → List WorkflowEvent → Option WorkflowEvent
find_event id key t = first (is_event id key) t

abbrev pub is_set_by : String → ℕ → String → WorkflowEventHistory → Bool
is_set_by id fn key e = same e.workflow_uuid id && e.function_id == fn && same e.key key

unfoldable pub find_event_set_by :
    String → ℕ → String → List WorkflowEventHistory → Option WorkflowEventHistory
find_event_set_by id fn key t = first (is_set_by id fn key) t

-- `INSERT ... ON CONFLICT (workflow_uuid, key) DO UPDATE SET value, serialization`
unfoldable pub upsert_event : WorkflowEvent → Db → Result (Unit {0}) × Db
unfolding find_event find_row
upsert_event e db =
    if is_some (find_event e.workflow_uuid e.key db.workflow_events)
    then (
      ok tt,
      record db {
        workflow_events =
            update (is_event e.workflow_uuid e.key)
              (λ r. record r { value = e.value; serialization = e.serialization })
              db.workflow_events;
      },
    )
    else (if is_some (find_row e.workflow_uuid db.workflow_status)
        then (ok tt, record db { workflow_events = db.workflow_events ++ e ∷ [] })
        else (err foreign_key_violation, db))

-- `INSERT ... ON CONFLICT (workflow_uuid, function_id, key) DO UPDATE SET value, serialization`
unfoldable pub upsert_event_history : WorkflowEventHistory → Db → Result (Unit {0}) × Db
unfolding find_event_set_by find_row
upsert_event_history e db =
    if is_some (find_event_set_by e.workflow_uuid e.function_id e.key db.workflow_events_history)
    then (
      ok tt,
      record db {
        workflow_events_history =
            update (is_set_by e.workflow_uuid e.function_id e.key)
              (λ r. record r { value = e.value; serialization = e.serialization })
              db.workflow_events_history;
      },
    )
    else (if is_some (find_row e.workflow_uuid db.workflow_status)
        then (ok tt, record db { workflow_events_history = db.workflow_events_history ++ e ∷ [] })
        else (err foreign_key_violation, db))

abbrev pub and_then :
    Result (Unit {0}) × Db → (Db → Result (Unit {0}) × Db) → Result (Unit {0}) × Db
and_then (err e, db) next = (err e, db)
and_then (ok _, db) next = next db

-- What the step of `setEvent` does; the columns `value` are not nullable.
unfoldable pub write_event :
    String → ℕ → String → Option String → Option String → Db → Result (Unit {0}) × Db
unfolding upsert_event upsert_event_history
write_event id fn key none serialization db = (err not_null_violation, db)
write_event id fn key (some text) serialization db =
    and_then
      (upsert_event
        (record { workflow_uuid = id; key = key; value = text; serialization = serialization }) db)
      (upsert_event_history (record {
        workflow_uuid = id;
        function_id = fn;
        key = key;
        value = text;
        serialization = serialization;
      }))

unfoldable pub set_event :
    String
    → ℕ
    → ℕ
    → String
    → ℕ
    → String
    → Option String
    → Option String
    → Db
    → Result (Option String) × Db
unfolding run_and_record_result write_event
set_event executor started ended id fn key message serialization db = rollback db (
    run_and_record_result executor started ended funcname_set_event id fn
      (λ d. no_output (write_event id fn key message serialization d)) db)

-- The workflow that asks, and the numbers of its step and of its timer.
pub record CallerWorkflow : Type 0 where
  pub workflow_id : String
  pub function_id : ℕ
  pub timeout_function_id : ℕ

abbrev pub event_value : Option WorkflowEvent → Received
event_value none = record { serialized_value = none; serialization = none }
event_value (some e) = record { serialized_value = some e.value; serialization = e.serialization }

-- Inside a workflow the value is a checkpoint of the caller's step.
unfoldable pub record_event : Option CallerWorkflow → Course → Received → Db → Result Received × Db
unfolding record_operation_result
record_event none c r db = (ok r, db)
record_event (some caller) c r db = then_return r (
    record_operation_result c.executor caller.workflow_id caller.function_id funcname_get_event true
      c.started c.ended (received_options r) (c.before_commit db))

abbrev pub get_event_polled :
    Option CallerWorkflow
    → Course
    → Option (Result (Option WorkflowEvent) × Db)
    → Option (Result Received × Db)
get_event_polled caller c none = none
get_event_polled caller c (some (err e, db)) = some (err e, db)
get_event_polled caller c (some (ok found, db)) =
    some (record_event caller c (event_value found) db)

abbrev pub get_event_waiting :
    Option CallerWorkflow → Course → String → String → Result ℕ × Db → Option (Result Received × Db)
get_event_waiting caller c id key (err e, db) = some (err e, db)
get_event_waiting caller c id key (ok finish, db) = get_event_polled caller c (
    poll (Option.map (λ w. w.workflow_id) caller) (λ d. find_event id key d.workflow_events) finish
      c.rounds db)

-- `none` where the rounds end before the call does.
unfoldable pub get_event :
    Option CallerWorkflow → Course → String → String → ℕ → Db → Option (Result Received × Db)
unfolding get_operation_result_and_throw_if_cancelled deadline poll record_event find_event
get_event none c id key timeout_seconds db =
    get_event_waiting none c id key (ok (c.clock.asked + timeout_seconds * 1000), db)
get_event (some w) c id key timeout_seconds db =
    elim (get_operation_result_and_throw_if_cancelled w.workflow_id w.function_id db) [
      | err e ↦ some (err e, db)
      | ok (some o) ↦ some (replay_value w.workflow_id w.function_id funcname_get_event o, db)
      | ok none ↦ get_event_waiting (some w) c id key (
          deadline c.executor c.clock w.workflow_id w.timeout_function_id (timeout_seconds * 1000)
            db)
    ]
