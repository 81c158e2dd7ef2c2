-- ===== src/SysDb/Messages/Receive/Receipt.antt =====
-- What `recv` returns was in front of its queue and is returned again whenever its step is run
-- again, and a wait ends.
use dbos_transact_ts.Common.{
  ℕ, ◌*◌, String, true, Option, none, some, ◌≡◌, ◌≢◌, ap, sym, ◌∙◌, arith, All, same_refl, or_else,
  is_some, first, head, tail, ◌<◌,
}
use dbos_transact_ts.SysDb.Schema.{Db}
use dbos_transact_ts.SysDb.Result.{Result, ok}
use dbos_transact_ts.SysDb.Outcome.{check_if_canceled}
use dbos_transact_ts.SysDb.Steps.{
  get_operation_result_and_throw_if_cancelled, find_step, new_step, record_operation_result,
}
use dbos_transact_ts.SysDb.Steps.Checkpoints.{record_operation_result_leaves}
use dbos_transact_ts.SysDb.Steps.Replay.{then_return-ok}
use dbos_transact_ts.SysDb.Polling.Ending.{poll_ends, Expires}
use dbos_transact_ts.SysDb.Steps.Effects.{rollback-ok}
use dbos_transact_ts.SysDb.Polling.{Course, Received, received_options, deadline}
use dbos_transact_ts.SysDb.Messages.{is_waiting, consume, null_topic, waiting_messages}
use dbos_transact_ts.SysDb.Messages.Queue.{consume-waiting_messages}
use dbos_transact_ts.SysDb.Messages.Receive.{
  received_of, funcname_recv, receive, recv, recv_waiting,
}
use dbos_transact_ts.SysDb.Messages.Receive.Waiting.{
  receive-new_step, IsReady, KeepsReady, deadline-IsReady, recv_waiting-receive, recv_last-receive,
}

module _ (c : Course) (id : String) (fn : ℕ) where
  receive_takes :
      (topic : String) (d : Db) (r : Received) (db' : Db)
      → receive c id fn topic d ≡ (ok r, db')
      → (r ≡ received_of (consume id topic d.notifications).0)
        × (db'.notifications ≡ (consume id topic d.notifications).1)
  unfolding receive record_operation_result
  receive_takes topic d r db' h =
      let taken = consume id topic d.notifications in
      let (recorded, same) =
        then_return-ok (received_of taken.0) r _ db' (rollback-ok r d db' _ h) in
      let leaves =
        record_operation_result_leaves c.executor id fn funcname_recv true c.started c.ended
          (received_options (received_of taken.0)) (record d { notifications = taken.1 }) in
      (sym same, ap (λ (p : Result (Unit {0}) × Db). p.1.notifications) (sym recorded) ∙ leaves.0)

  recv_fresh :
      (timeout_fn : ℕ) (topic : Option String) (timeout_seconds : ℕ) (db : Db) (r : Received)
      (db' : Db)
      → find_step id fn db.operation_outputs ≡ none
      → recv c id fn timeout_fn topic timeout_seconds db ≡ some (ok r, db')
      → recv_waiting c id fn
          (or_else topic null_topic)
          (deadline c.executor c.clock id timeout_fn (timeout_seconds * 1000) db)
        ≡ some (ok r, db')
  unfolding recv
  recv_fresh timeout_fn topic timeout_seconds db r db' fresh h = ground (arith, fresh, h)

  recv_recorded :
      (timeout_fn : ℕ) (topic : Option String) (timeout_seconds : ℕ) (db : Db) (r : Received)
      → find_step id fn db.operation_outputs
        ≡ some (new_step id fn funcname_recv c.started c.ended (received_options r))
      → check_if_canceled id db.workflow_status ≡ ok tt
      → (c' : Course) → recv c' id fn timeout_fn topic timeout_seconds db ≡ some (ok r, db)
  unfolding recv get_operation_result_and_throw_if_cancelled
  recv_recorded timeout_fn topic timeout_seconds db r found free c' =
      ground (arith, found, free, same_refl funcname_recv)

  module _ (timeout_fn : ℕ) (topic : Option String) (timeout_seconds : ℕ) (db : Db) where
    -- A `recv` that runs and returns has taken the message in front of its queue, as the last
    -- transaction finds it, left the others there in their order, and recorded what it took, or
    -- that there was none; this whatever the other transactions did, as long as they gave the step
    -- no checkpoint and no two messages one id.
    pub recv_takes :
        (r : Received) (db' : Db)
        → timeout_fn ≢ fn
        → IsReady c id fn db
        → All (λ round. KeepsReady c id fn round.others) c.rounds
        → KeepsReady c id fn c.before_check
        → KeepsReady c id fn c.before_commit
        → recv c id fn timeout_fn topic timeout_seconds db ≡ some (ok r, db')
        → (d : Db) × (receive c id fn (or_else topic null_topic) d ≡ (ok r, db'))
          × (r
              ≡ received_of (head (waiting_messages id (or_else topic null_topic) d.notifications)))
          × (waiting_messages id (or_else topic null_topic) db'.notifications
              ≡ tail (waiting_messages id (or_else topic null_topic) d.notifications))
          × (find_step id fn db'.operation_outputs
              ≡ some (new_step id fn funcname_recv c.started c.ended (received_options r)))
    recv_takes r db' apart ready keep before_check before_commit h =
        let (d0, ready0, last) =
          recv_waiting-receive c id fn (or_else topic null_topic) _ r db'
            (deadline-IsReady c id fn timeout_fn (timeout_seconds * 1000) db apart ready) keep
            (recv_fresh timeout_fn topic timeout_seconds db r db' ready.0 h) in
        let d = c.before_commit (c.before_check d0) in
        let ready1 = before_commit _ (before_check d0 ready0) in
        let ran = recv_last-receive c id fn (or_else topic null_topic) d0 r db' last in
        let (value, left) = receive_takes (or_else topic null_topic) d r db' ran in
        let (front, rest) =
          consume-waiting_messages id (or_else topic null_topic) d.notifications ready1.1 in
        (
          d,
          ran,
          value ∙ ap received_of front,
          ap (waiting_messages id (or_else topic null_topic)) left ∙ rest,
          receive-new_step c id fn (or_else topic null_topic) d r db' ready1.0 ran,
        )

    -- A message that `recv` returned is returned again, and nothing is consumed a second time,
    -- whenever the step runs again on the tables that it left, by any executor, at any time, with
    -- any timeout and topic, unless the workflow is cancelled.
    pub recv_again :
        (r : Received) (db' : Db)
        → timeout_fn ≢ fn
        → IsReady c id fn db
        → All (λ round. KeepsReady c id fn round.others) c.rounds
        → KeepsReady c id fn c.before_check
        → KeepsReady c id fn c.before_commit
        → recv c id fn timeout_fn topic timeout_seconds db ≡ some (ok r, db')
        → check_if_canceled id db'.workflow_status ≡ ok tt
        → (c' : Course) (timeout_fn' : ℕ) (topic' : Option String) (timeout' : ℕ)
        → recv c' id fn timeout_fn' topic' timeout' db' ≡ some (ok r, db')
    recv_again r db' apart ready keep before_check before_commit h free c' timeout_fn' topic'
          timeout' =
        let (_, _, _, _, found) = recv_takes r db' apart ready keep before_check before_commit h in
        recv_recorded timeout_fn' topic' timeout' db' r found free c'

    -- A `recv` ends: once the clock of one of its rounds is past the deadline, it has returned or
    -- thrown, whatever the other transactions did and whether a message came or not.
    pub recv_ends :
        (finish : ℕ) (d : Db)
        → deadline c.executor c.clock id timeout_fn (timeout_seconds * 1000) db ≡ (ok finish, d)
        → 0 < finish
        → Expires finish c.rounds
        → is_some (recv c id fn timeout_fn topic timeout_seconds db) ≡ true
    unfolding recv
    recv_ends finish d timer pos late = ground (
      arith,
      timer,
      poll_ends (some id) (λ d. first (is_waiting id (or_else topic null_topic)) d.notifications)
          finish c.rounds d pos late,
    )
