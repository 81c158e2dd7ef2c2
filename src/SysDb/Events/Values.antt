-- ===== src/SysDb/Events/Values.antt =====
-- An event that was set is read back, the last value of a key stands, and a read ends.
use mathlib.Core.Option
use dbos_transact_ts.Common.{
  ℕ, String, true, false, ◌&&◌, Option, none, some, ◌≡◌, refl, ap, sym, ◌∙◌, arith, same, same_iff,
  same_refl, first, first-update_at, first-update_apart, first-append_other, first_sound,
  Option-cases, inl, inr,
}
use dbos_transact_ts.SysDb.Schema.{Db, WorkflowEvent, WorkflowEventHistory}
use dbos_transact_ts.SysDb.Result.{Result, ok, err}
use dbos_transact_ts.SysDb.Steps.{find_step, no_output}
use dbos_transact_ts.SysDb.Steps.Checkpoints.{first-append_new}
use dbos_transact_ts.SysDb.Steps.Effects.{run_and_record_result-SameComms, no_output-ok}
use dbos_transact_ts.SysDb.Polling.{Received}
use dbos_transact_ts.SysDb.Events.{
  find_event, is_event, find_event_set_by, is_set_by, upsert_event, upsert_event_history,
  write_event, set_event, event_value, and_then, funcname_set_event,
}

abbrev pub valued : String → Option String → Received
valued text serialization = record { serialized_value = some text; serialization = serialization }

upsert_event-find_event :
    (e : WorkflowEvent) (db : Db)
    → (upsert_event e db).0 ≡ ok tt
    → event_value (find_event e.workflow_uuid e.key (upsert_event e db).1.workflow_events)
      ≡ valued e.value e.serialization
unfolding upsert_event find_event
upsert_event-find_event e db done =
    elim (Option-cases (first (is_event e.workflow_uuid e.key) db.workflow_events)) [
      | inl free ↦ ground (
        arith,
        done,
        free,
        same_refl e.workflow_uuid,
        same_refl e.key,
        first-append_new (is_event e.workflow_uuid e.key) db.workflow_events e,
      )
      | inr (old, found) ↦ ground (
        arith,
        found,
        first_sound (is_event e.workflow_uuid e.key) db.workflow_events old found,
        first-update_at (is_event e.workflow_uuid e.key) (is_event e.workflow_uuid e.key)
            (λ r. record r { value = e.value; serialization = e.serialization }) (λ r h. refl)
            db.workflow_events,
      )
    ]

upsert_event_elsewhere :
    (e : WorkflowEvent) (db : Db) (id key : String)
    → (same e.workflow_uuid id && same e.key key) ≡ false
    → find_event id key (upsert_event e db).1.workflow_events ≡ find_event id key db.workflow_events
unfolding upsert_event find_event
upsert_event_elsewhere e db id key apart = ground (
  arith,
  apart,
  first-append_other (is_event id key) db.workflow_events e,
  first-update_apart (is_event id key) (is_event e.workflow_uuid e.key)
      (λ r. record r { value = e.value; serialization = e.serialization })
      (λ r here. (past r here, past r here)) db.workflow_events,
)
  where
    past : (r : WorkflowEvent) → is_event e.workflow_uuid e.key r ≡ true → is_event id key r ≡ false
    past r here =
        ground (arith, here, apart, same_iff r.workflow_uuid e.workflow_uuid, same_iff r.key e.key)

upsert_event_history-find_event_set_by :
    (e : WorkflowEventHistory) (db : Db)
    → (upsert_event_history e db).0 ≡ ok tt
    → Option.map
        (λ h. h.value)
        (find_event_set_by e.workflow_uuid e.function_id e.key
          (upsert_event_history e db).1.workflow_events_history)
      ≡ some e.value
unfolding upsert_event_history find_event_set_by
upsert_event_history-find_event_set_by e db done =
    elim (Option-cases
      (first (is_set_by e.workflow_uuid e.function_id e.key) db.workflow_events_history)) [
        | inl free ↦ ground (
          arith,
          done,
          free,
          same_refl e.workflow_uuid,
          same_refl e.key,
          first-append_new (is_set_by e.workflow_uuid e.function_id e.key)
              db.workflow_events_history e,
        )
        | inr (old, found) ↦ ground (
          arith,
          found,
          first_sound (is_set_by e.workflow_uuid e.function_id e.key) db.workflow_events_history old
              found,
          first-update_at (is_set_by e.workflow_uuid e.function_id e.key)
              (is_set_by e.workflow_uuid e.function_id e.key)
              (λ r. record r { value = e.value; serialization = e.serialization }) (λ r h. refl)
              db.workflow_events_history,
        )
      ]

upsert_event_history_leaves :
    (e : WorkflowEventHistory) (db : Db)
    → (upsert_event_history e db).1.workflow_events ≡ db.workflow_events
unfolding upsert_event_history
upsert_event_history_leaves e db = ground arith

and_then-ok :
    (x : Result (Unit {0}) × Db) (next : Db → Result (Unit {0}) × Db)
    → (and_then x next).0 ≡ ok tt
    → (x.0 ≡ ok tt) × (and_then x next ≡ next x.1)
and_then-ok (err e, db) next h = cc
and_then-ok (ok _, db) next h = (refl, refl)

-- What a step that sets an event leaves: the value under the key, the value under the step's number
-- and key in the history, and every other event as it was.
abbrev pub IsEventSet : String → ℕ → String → String → Option String → Db → Db → Type 0
IsEventSet id fn key text serialization db db' =
    (event_value (find_event id key db'.workflow_events) ≡ valued text serialization)
    × (Option.map (λ h. h.value) (find_event_set_by id fn key db'.workflow_events_history)
        ≡ some text)
    × ((id' key' : String)
        → (same id id' && same key key') ≡ false
        → find_event id' key' db'.workflow_events ≡ find_event id' key' db.workflow_events)

module _ (id : String) (fn : ℕ) (key text : String) (serialization : Option String) (db : Db) where
  abbrev event : WorkflowEvent
  event = record { workflow_uuid = id; key = key; value = text; serialization = serialization }

  abbrev history : WorkflowEventHistory
  history = record {
    workflow_uuid = id;
    function_id = fn;
    key = key;
    value = text;
    serialization = serialization;
  }

  write_event-IsEventSet :
      (write_event id fn key (some text) serialization db).0 ≡ ok tt
      → IsEventSet id fn key text serialization db
          (write_event id fn key (some text) serialization db).1
  unfolding write_event
  write_event-IsEventSet done =
      let (first_done, e) =
        and_then-ok (upsert_event event db) (upsert_event_history history) done in
      let d = (upsert_event event db).1 in
      let leaves = upsert_event_history_leaves history d in
      let second_done = ap (λ (x : Result (Unit {0}) × Db). x.0) (sym e) ∙ done in
      rw (e, leaves)
        (
          upsert_event-find_event event db first_done,
          upsert_event_history-find_event_set_by history d second_done,
          λ id' key' apart. upsert_event_elsewhere event db id' key' apart,
        )

  module _ (executor : String) (started ended : ℕ) (output : Option String) (db' : Db) where
    -- An event that a step has set, and has not set before, is the value of its key from then on,
    -- and stands in the history under the step's number; no other event of any workflow changes.
    pub set_event-IsEventSet :
        set_event executor started ended id fn key (some text) serialization db ≡ (ok output, db')
        → find_step id fn db.operation_outputs ≡ none
        → IsEventSet id fn key text serialization db db'
    unfolding set_event
    set_event-IsEventSet ran fresh =
        let (done, same) =
          run_and_record_result-SameComms executor started ended funcname_set_event id fn
            (λ d. no_output (write_event id fn key (some text) serialization d)) db output db' ran
            fresh in
        let (written, at) =
          no_output-ok (write_event id fn key (some text) serialization db) output done in
        rw (same.1, same.2, at) (write_event-IsEventSet written)
