-- ===== src/Tests/Messages.antt =====
-- Messages and events of the workflows of the test table.
use dbos_transact_ts.Common.{
  true, Option, none, some, [], ◌∷◌, ◌≡◌, refl, inl, inr, same, head, tail, is_some, arith,
}
use dbos_transact_ts.SysDb.Schema.{Db}
use dbos_transact_ts.SysDb.Result.{Result, ok}
use dbos_transact_ts.SysDb.Outcome.{check_if_canceled}
use dbos_transact_ts.SysDb.Steps.{find_step, new_step}
use dbos_transact_ts.SysDb.Polling.{Course, deadline, Received, received_options}
use dbos_transact_ts.SysDb.Messages.{
  Outgoing, send_direct, insert_notification, notification_of, waiting_messages, consume,
  null_topic,
}
use dbos_transact_ts.SysDb.Messages.Delivery.{send_direct_again, insert_notification-UniqueMessages}
use dbos_transact_ts.SysDb.Messages.Receive.{recv, receive, received_of, funcname_recv}
use dbos_transact_ts.SysDb.Messages.Receive.Waiting.{KeepsReady}
use dbos_transact_ts.SysDb.Messages.Receive.Receipt.{recv_takes, recv_again, recv_ends}
use dbos_transact_ts.SysDb.Events.{set_event, get_event, CallerWorkflow}
use dbos_transact_ts.SysDb.Events.Values.{valued}
use dbos_transact_ts.SysDb.Events.Reads.{get_event-set_event, get_event_again}
use dbos_transact_ts.Tests.Fixtures.{db}
use dbos_transact_ts.Tests.Replays.{clock}

abbrev hello : Outgoing
hello = record {
  destination = "a";
  message = some "hello";
  topic = none;
  serialization = none;
  idempotency_key = some "k1";
  random = "r1";
}

abbrev world : Outgoing
world = record hello { message = some "world"; idempotency_key = some "k2" }

-- Two messages wait for the workflow "a".
abbrev mailbox : Db
mailbox =
    (insert_notification (notification_of 11 world "world")
      (insert_notification (notification_of 10 hello "hello") db).1).1

-- The message sent first is the one received.
consumes_hello :
    (consume "a" null_topic mailbox.notifications).0 ≡ some (notification_of 10 hello "hello")
unfolding consume insert_notification same notification_of
consumes_hello = refl

send_direct_again_example :
    send_direct 99 (record world { idempotency_key = some "k1" }) (send_direct 10 hello db).1
    ≡ (ok tt, (send_direct 10 hello db).1)
send_direct_again_example =
    send_direct_again 10 hello "hello" db "k1" refl refl (unfold same in refl)
      (unfold send_direct same in refl) 99 (record world { idempotency_key = some "k1" }) "world"
      refl refl refl

-- A receiver that looks twice, while another transaction sends in between.
abbrev course : Course
course = record {
  executor = "local";
  clock = clock;
  started = 50;
  ended = 51;
  rounds =
      record { others = λ d. d; now = 60 }
      ∷ record {
        others = λ d. (insert_notification (notification_of 70 hello "hello") d).1;
        now = 70;
      }
      ∷ [];
  before_check = λ d. d;
  before_commit = λ d. d;
}

sends_keeps :
    KeepsReady course "a" 3 (λ d. (insert_notification (notification_of 70 hello "hello") d).1)
unfolding insert_notification
sends_keeps d h = (
  ground (arith, h.0),
  insert_notification-UniqueMessages (notification_of 70 hello "hello") d h.1,
)

abbrev heard : Received
heard = record { serialized_value = some "hello"; serialization = none }

abbrev received : Option (Result Received × Db)
received = recv course "a" 3 4 none 10 db

abbrev db_of : Option (Result Received × Db) → Db
db_of none = db
db_of (some x) = x.1

recv_takes_example :
    (d : Db) × (receive course "a" 3 null_topic d ≡ (ok heard, db_of received))
    × (heard ≡ received_of (head (waiting_messages "a" null_topic d.notifications)))
    × (waiting_messages "a" null_topic (db_of received).notifications
        ≡ tail (waiting_messages "a" null_topic d.notifications))
    × (find_step "a" 3 (db_of received).operation_outputs
        ≡ some (new_step "a" 3 funcname_recv 50 51 (received_options heard)))
recv_takes_example =
    recv_takes course "a" 3 4 none 10 db heard (db_of received) (λ e. omega (arith, e))
      (unfold find_step in refl, λ id. omega arith) (λ d h. h, (sends_keeps, tt)) (λ d h. h)
      (λ d h. h) (unfold recv insert_notification notification_of same in refl)

recv_again_example :
    recv
      (record course { executor = "other"; rounds = [] })
      "a"
      3
      5
      (some "news")
      1
      (db_of received)
    ≡ some (ok heard, db_of received)
recv_again_example =
    recv_again course "a" 3 4 none 10 db heard (db_of received) (λ e. omega (arith, e))
      (unfold find_step in refl, λ id. omega arith) (λ d h. h, (sends_keeps, tt)) (λ d h. h)
      (λ d h. h) (unfold recv insert_notification notification_of same in refl)
      (unfold recv insert_notification notification_of check_if_canceled same in refl)
      (record course { executor = "other"; rounds = [] }) 5 (some "news") 1

-- Nobody sends: the receiver gives up after its deadline.
abbrev unheard : Course
unheard = record course {
  rounds = record { others = λ d. d; now = 60 } ∷ record { others = λ d. d; now = 20000 } ∷ [];
}

recv_ends_example : is_some (recv unheard "a" 3 4 none 10 db) ≡ true
recv_ends_example =
    recv_ends unheard "a" 3 4 none 10 db 10040
      (deadline unheard.executor unheard.clock "a" 4 10000 db).1 (unfold deadline same in refl)
      (omega arith) (inr (inl (omega arith)))

abbrev progress_set : Db
progress_set = (set_event "local" 4 5 "a" 0 "progress" (some "50") none db).1

get_event-set_event_example :
    get_event none unheard "a" "progress" 10 progress_set
    ≡ some (ok (valued "50" none), progress_set)
get_event-set_event_example =
    get_event-set_event "local" 4 5 "a" 0 "progress" "50" none db none progress_set
      (unfold set_event same in refl) (unfold find_step in refl) unheard 10 progress_set
      (record { others = λ d. d; now = 60 }) (record { others = λ d. d; now = 20000 } ∷ []) refl
      refl

abbrev reader : CallerWorkflow
reader = record { workflow_id = "b"; function_id = 7; timeout_function_id = 8 }

abbrev progress_read : Db
progress_read = db_of (get_event (some reader) unheard "a" "progress" 10 progress_set)

get_event_again_example :
    get_event
      (some reader)
      (record unheard { rounds = [] })
      "a"
      "progress"
      1
      (record progress_read { workflow_events = [] })
    ≡ some (ok (valued "50" none), record progress_read { workflow_events = [] })
get_event_again_example =
    get_event_again unheard reader "a" "progress" 10 progress_set (valued "50" none) progress_read
      (λ e. omega (arith, e)) (unfold set_event find_step same in refl) (λ d h. h, (λ d h. h, tt))
      (λ d h. h) (unfold get_event set_event same in refl) (record unheard { rounds = [] }) 1
      (record progress_read { workflow_events = [] }) refl
      (unfold get_event set_event check_if_canceled same in refl)
