-- ===== src/SysDb/Messages/Receive.antt =====
-- `recv`: a workflow waits for a message, with a deadline that survives a restart, consumes the
-- message and records it.
pub mod Waiting
pub mod Receipt
use dbos_transact_ts.Common.{
  ℕ, ◌+◌, ◌*◌, ◌==◌, String, Bool, true, false, Option, none, some, List, [], column_is,
  if◌then◌else◌, or_else, first,
}
use dbos_transact_ts.SysDb.Schema.{Db, Notification, OperationOutput}
use dbos_transact_ts.SysDb.Result.{Result, ok, err, unexpected_step}
use dbos_transact_ts.SysDb.Outcome.{check_if_canceled}
use dbos_transact_ts.SysDb.Steps.{
  StepOptions, only_output, rollback, record_operation_result, then_return,
  get_operation_result_and_throw_if_cancelled,
}
use dbos_transact_ts.SysDb.Sleep.{Clock, durable_sleep}
use dbos_transact_ts.SysDb.Polling.{
  poll, Course, Received, received_options, replay_value, deadline,
}
use dbos_transact_ts.SysDb.Messages.{null_topic, is_waiting, consume}

abbrev pub funcname_recv : String
funcname_recv = "DBOS.recv"

abbrev pub received_of : Option Notification → Received
received_of none = record { serialized_value = none; serialization = none }
received_of (some n) = record { serialized_value = some n.message; serialization = n.serialization }

-- The transaction at the end: the message and its checkpoint, or neither.
unfoldable pub receive : Course → String → ℕ → String → Db → Result Received × Db
unfolding consume record_operation_result
receive c id fn topic db =
    let (taken, t) = consume id topic db.notifications in
    let r = received_of taken in
    rollback db (
      then_return r (
        record_operation_result c.executor id fn funcname_recv true c.started c.ended
          (received_options r) (record db { notifications = t })))

-- After the loop.
unfoldable pub recv_last : Course → String → ℕ → String → Db → Result Received × Db
unfolding receive check_if_canceled
recv_last c id fn topic db =
    let db' = c.before_check db in
    elim (check_if_canceled id db'.workflow_status) [
      | err e ↦ (err e, db')
      | ok _ ↦ receive c id fn topic (c.before_commit db')
    ]

abbrev pub recv_polled :
    Course
    → String
    → ℕ
    → String
    → Option (Result (Option Notification) × Db)
    → Option (Result Received × Db)
recv_polled c id fn topic none = none
recv_polled c id fn topic (some (err e, db)) = some (err e, db)
recv_polled c id fn topic (some (ok _, db)) = some (recv_last c id fn topic db)

abbrev pub recv_waiting :
    Course → String → ℕ → String → Result ℕ × Db → Option (Result Received × Db)
recv_waiting c id fn topic (err e, db) = some (err e, db)
recv_waiting c id fn topic (ok finish, db) =
    recv_polled c id fn topic
      (poll (some id) (λ d. first (is_waiting id topic) d.notifications) finish c.rounds db)

-- `none` where the rounds end before the step does.
unfoldable pub recv :
    Course → String → ℕ → ℕ → Option String → ℕ → Db → Option (Result Received × Db)
unfolding get_operation_result_and_throw_if_cancelled deadline poll recv_last
recv c id fn timeout_fn topic timeout_seconds db =
    elim (get_operation_result_and_throw_if_cancelled id fn db) [
      | err e ↦ some (err e, db)
      | ok (some o) ↦ some (replay_value id fn funcname_recv o, db)
      | ok none ↦
          recv_waiting c id fn (or_else topic null_topic)
            (deadline c.executor c.clock id timeout_fn (timeout_seconds * 1000) db)
    ]
