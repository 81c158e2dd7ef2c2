-- ===== src/SysDb/Events/Reads.antt =====
-- `getEvent` reads what `setEvent` set, returns it again when its step is run again, and ends.
use dbos_transact_ts.Common.{
  ℕ, ◌+◌, ◌*◌, ◌<◌, String, true, Option, none, some, List, ◌∷◌, ◌≡◌, ◌≢◌, refl, ap, sym, ◌∙◌,
  arith, same_refl, All, is_some,
}
use dbos_transact_ts.SysDb.Schema.{Db, WorkflowEvent}
use dbos_transact_ts.SysDb.Result.{Result, ok, err}
use dbos_transact_ts.SysDb.Outcome.{check_if_canceled}
use dbos_transact_ts.SysDb.Steps.{find_step, new_step, get_operation_result_and_throw_if_cancelled}
use dbos_transact_ts.SysDb.Steps.Checkpoints.{find_step-record_operation_result}
use dbos_transact_ts.SysDb.Steps.Replay.{then_return-ok}
use dbos_transact_ts.SysDb.Polling.{
  Round, poll, check_caller, Course, Received, received_options, deadline,
}
use dbos_transact_ts.SysDb.Polling.Ending.{poll_keeps, poll_ends, Expires}
use dbos_transact_ts.SysDb.Messages.Receive.Waiting.{deadline_fresh}
use dbos_transact_ts.SysDb.Events.{
  find_event, set_event, event_value, get_event, get_event_waiting, get_event_polled, record_event,
  CallerWorkflow, funcname_get_event,
}
use dbos_transact_ts.SysDb.Events.Values.{valued, set_event-IsEventSet}

-- A value read back is that of an event.
found_event :
    (o : Option WorkflowEvent) (text : String) (serialization : Option String)
    → event_value o ≡ valued text serialization
    → (e : WorkflowEvent) × (o ≡ some e)
found_event none text serialization h = cc
found_event (some e) text serialization h = (e, refl)

module _ (c : Course) (id key : String) (timeout_seconds : ℕ) (db : Db) where
  get_event_finds :
      (r : Round) (rs : List Round) (e : WorkflowEvent)
      → c.rounds ≡ r ∷ rs
      → find_event id key (r.others db).workflow_events ≡ some e
      → get_event none c id key timeout_seconds db ≡ some (ok (event_value (some e)), r.others db)
  unfolding get_event poll check_caller record_event
  get_event_finds r rs e rounds found = ground (arith, rounds, found)

  -- A read outside of workflows ends: once the clock of one of its rounds is past the deadline, it
  -- has returned, whether the event was set or not.
  pub get_event_ends :
      0 < c.clock.asked + timeout_seconds * 1000
      → Expires (c.clock.asked + timeout_seconds * 1000) c.rounds
      → is_some (get_event none c id key timeout_seconds db) ≡ true
  unfolding get_event record_event
  get_event_ends pos late = ground (
    arith,
    poll_ends none (λ d. find_event id key d.workflow_events)
        (c.clock.asked + timeout_seconds * 1000) c.rounds db pos late,
  )

-- A read outside of workflows, of an event that a step has set, on tables where the events are still
-- those, returns the text and the format that were set at its first look, whatever its timeout.
pub get_event-set_event :
    (executor : String) (started ended : ℕ) (id : String) (fn : ℕ) (key text : String)
    (serialization : Option String) (db : Db) (output : Option String) (db' : Db)
    → set_event executor started ended id fn key (some text) serialization db ≡ (ok output, db')
    → find_step id fn db.operation_outputs ≡ none
    → (c : Course) (timeout_seconds : ℕ) (now : Db) (r : Round) (rs : List Round)
    → c.rounds ≡ r ∷ rs
    → (r.others now).workflow_events ≡ db'.workflow_events
    → get_event none c id key timeout_seconds now
      ≡ some (ok (valued text serialization), r.others now)
get_event-set_event executor started ended id fn key text serialization db output db' ran fresh c
      timeout_seconds now r rs rounds same =
    let (value, _, _) =
      set_event-IsEventSet id fn key text serialization db executor started ended output db' ran
        fresh in
    let (e, found) = found_event _ text serialization value in
    let seen =
      get_event_finds c id key timeout_seconds now r rs e rounds
        (ap (λ t. find_event id key t) same ∙ found) in
    seen ∙ ap (λ (v : Received). some (ok v, r.others now)) (ap event_value (sym found) ∙ value)

module _ (c : Course) (w : CallerWorkflow) where
  -- The caller's step has no checkpoint.
  abbrev pub IsUnread : Db → Type 0
  IsUnread d = find_step w.workflow_id w.function_id d.operation_outputs ≡ none

  record_event-new_step :
      (r v : Received) (db db' : Db)
      → IsUnread (c.before_commit db)
      → record_event (some w) c v db ≡ (ok r, db')
      → find_step w.workflow_id w.function_id db'.operation_outputs
        ≡ some (
            new_step w.workflow_id w.function_id funcname_get_event c.started c.ended
              (received_options r))
  unfolding record_event
  record_event-new_step r v db db' unread h =
      let (recorded, same) = then_return-ok v r _ db' h in
      let found =
        find_step-record_operation_result c.executor w.workflow_id w.function_id funcname_get_event
          true c.started c.ended (received_options v) (c.before_commit db) unread
          (ap (λ (p : Result (Unit {0}) × Db). p.0) recorded) in
      cc

  get_event_waiting-new_step :
      (id key : String) (x : Result ℕ × Db) (r : Received) (db' : Db)
      → IsUnread x.1
      → All (λ round. (d : Db) → IsUnread d → IsUnread (round.others d)) c.rounds
      → ((d : Db) → IsUnread d → IsUnread (c.before_commit d))
      → get_event_waiting (some w) c id key x ≡ some (ok r, db')
      → find_step w.workflow_id w.function_id db'.operation_outputs
        ≡ some (
            new_step w.workflow_id w.function_id funcname_get_event c.started c.ended
              (received_options r))
  get_event_waiting-new_step id key (err e, d) r db' unread keep last h = cc
  get_event_waiting-new_step id key (ok finish, d) r db' unread keep last h = polled _ refl h
    where
      polled :
          (y : Option (Result (Option WorkflowEvent) × Db))
          → poll (some w.workflow_id) (λ d. find_event id key d.workflow_events) finish c.rounds d
            ≡ y
          → get_event_polled (some w) c y ≡ some (ok r, db')
          → find_step w.workflow_id w.function_id db'.operation_outputs
            ≡ some (
                new_step w.workflow_id w.function_id funcname_get_event c.started c.ended
                  (received_options r))
      polled none e k = cc
      polled (some (err f, d1)) e k = cc
      polled (some (ok found, d1)) e k =
          let unread1 =
            poll_keeps (some w.workflow_id) (λ d. find_event id key d.workflow_events) finish
              IsUnread c.rounds d unread keep (ok found) d1 e in
          record_event-new_step r (event_value found) d1 db' (last d1 unread1) (ground (arith, k))

  -- What a step of a workflow read of another workflow's event, or that there was none in time, is
  -- what it reads whenever it runs again, whatever the event has become since, unless the reading
  -- workflow is cancelled; the other transactions give the step no checkpoint.
  pub get_event_again :
      (id key : String) (timeout_seconds : ℕ) (db : Db) (r : Received) (db' : Db)
      → w.timeout_function_id ≢ w.function_id
      → IsUnread db
      → All (λ round. (d : Db) → IsUnread d → IsUnread (round.others d)) c.rounds
      → ((d : Db) → IsUnread d → IsUnread (c.before_commit d))
      → get_event (some w) c id key timeout_seconds db ≡ some (ok r, db')
      → (c' : Course) (timeout' : ℕ) (now : Db) → now.operation_outputs ≡ db'.operation_outputs
      → check_if_canceled w.workflow_id now.workflow_status ≡ ok tt
      → get_event (some w) c' id key timeout' now ≡ some (ok r, now)
  unfolding get_event get_operation_result_and_throw_if_cancelled
  get_event_again id key timeout_seconds db r db' apart unread keep last h c' timeout' now same
        free =
      let found =
        get_event_waiting-new_step id key
          (deadline c.executor c.clock w.workflow_id w.timeout_function_id (timeout_seconds * 1000)
            db)
          r db'
          (deadline_fresh c w.workflow_id w.function_id w.timeout_function_id
            (timeout_seconds * 1000) db apart unread)
          keep last (ground (arith, h, unread)) in
      ground (arith, found, free, same, same_refl funcname_get_event)
