-- ===== src/SysDb/Messages.antt =====
-- Messages between workflows (`notifications`): `send`, `sendDirect`, `recv` and
-- `getAllNotifications`. The serializer of the values is not part of the model: a message is its
-- text.
pub mod Queue
pub mod Delivery
pub mod Receive
use dbos_transact_ts.Common.{
  ℕ, ◌+◌, ◌*◌, String, Bool, true, false, not, ◌&&◌, Option, none, some, List, [], ◌∷◌, ◌++◌, same,
  leb, column_is, if◌then◌else◌, is_some, or_else, first, select, update, order_by, head, map,
}
use Prim.Native.String.{◌++◌ as join}
use mathlib.Core.Option
use dbos_transact_ts.SysDb.Schema.{Db, Notification, OperationOutput}
use dbos_transact_ts.SysDb.Rows.{find_row}
use dbos_transact_ts.SysDb.Result.{
  Result, ok, err, Fault, unexpected_step, foreign_key_violation, not_null_violation,
  nonexistent_workflow,
}
use dbos_transact_ts.SysDb.Outcome.{check_if_canceled, truthy}
use dbos_transact_ts.SysDb.Steps.{
  StepOptions, only_output, rollback, no_output, record_operation_result, run_and_record_result,
  then_return, get_operation_result_and_throw_if_cancelled,
}
use dbos_transact_ts.SysDb.Sleep.{Clock, durable_sleep}
use dbos_transact_ts.SysDb.Polling.{Round, poll}

abbrev pub null_topic : String
null_topic = "__null__topic__"

abbrev pub funcname_send : String
funcname_send = "DBOS.send"

abbrev pub funcname_recv : String
funcname_recv = "DBOS.recv"

-- `idempotencyKey ? `${idempotencyKey}::${destinationID}` : randomUUID()`; an empty key is none.
unfoldable pub message_id : Option String → String → String → String
message_id none destination random = random
message_id (some key) destination random =
    if truthy (some key) then join (join key "::") destination else random

-- What a caller of `send` gives; `random` is what `randomUUID` would yield.
pub record Outgoing : Type 0 where
  pub destination : String
  pub message : Option String
  pub topic : Option String
  pub serialization : Option String
  pub idempotency_key : Option String
  pub random : String

unfoldable pub notification_of : ℕ → Outgoing → String → Notification
unfolding message_id
notification_of now m text = record {
  message_uuid = message_id m.idempotency_key m.destination m.random;
  destination_uuid = m.destination;
  topic = or_else m.topic null_topic;
  message = text;
  serialization = m.serialization;
  created_at_epoch_ms = now;
  consumed = false;
}

abbrev pub is_message : String → Notification → Bool
is_message id n = same n.message_uuid id

-- `INSERT ... ON CONFLICT (message_uuid) DO NOTHING`
unfoldable pub insert_notification : Notification → Db → Result (Unit {0}) × Db
unfolding find_row
insert_notification n db =
    if is_some (first (is_message n.message_uuid) db.notifications)
    then (ok tt, db)
    else (if is_some (find_row n.destination_uuid db.workflow_status)
        then (ok tt, record db { notifications = db.notifications ++ n ∷ [] })
        else (err foreign_key_violation, db))

-- The column `message` is not nullable.
unfoldable pub insert_message : ℕ → Outgoing → Db → Result (Unit {0}) × Db
unfolding insert_notification notification_of
insert_message now m db = elim m.message [
  | none ↦ (err not_null_violation, db)
  | some text ↦ insert_notification (notification_of now m text) db
]

-- `if (err.code === '23503')`
abbrev pub explain : String → Fault → Fault
explain destination foreign_key_violation = nonexistent_workflow destination
explain destination e = e

abbrev pub explained {ℓ} : {A : Type ℓ} → String → Result A × Db → Result A × Db
explained destination (err e, db) = (err (explain destination e), db)
explained destination (ok a, db) = (ok a, db)

unfoldable pub send : String → ℕ → ℕ → String → ℕ → Outgoing → Db → Result (Option String) × Db
unfolding run_and_record_result insert_message
send executor started ended id fn m db = explained m.destination (
    rollback db (
      run_and_record_result executor started ended funcname_send id fn
        (λ d. no_output (insert_message ended m d)) db))

unfoldable pub send_direct : ℕ → Outgoing → Db → Result (Unit {0}) × Db
unfolding insert_message
send_direct now m db = explained m.destination (insert_message now m db)

-- `WHERE destination_uuid = $1 AND topic = $2 AND consumed = false`
abbrev pub is_waiting : String → String → Notification → Bool
is_waiting id topic n = same n.destination_uuid id && same n.topic topic && not n.consumed

-- `ORDER BY created_at_epoch_ms ASC`
abbrev pub sent_before : Notification → Notification → Bool
sent_before m n = leb m.created_at_epoch_ms n.created_at_epoch_ms

-- The messages that wait, the one sent first in front.
unfoldable pub waiting_messages : String → String → List Notification → List Notification
waiting_messages id topic t = order_by sent_before (select (is_waiting id topic) t)

abbrev pub consumed_one : Notification → Notification
consumed_one n = record n { consumed = true }

-- The `UPDATE ... RETURNING`: the oldest waiting message is marked, and returned.
unfoldable pub consume :
    String → String → List Notification → Option Notification × List Notification
unfolding waiting_messages
consume id topic t = elim (head (waiting_messages id topic t)) [
  | none ↦ (none, t)
  | some oldest ↦ (
    first (λ n. is_waiting id topic n && is_message oldest.message_uuid n) t,
    update (λ n. is_waiting id topic n && is_message oldest.message_uuid n) consumed_one t,
  )
]
