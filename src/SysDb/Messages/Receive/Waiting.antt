-- ===== src/SysDb/Messages/Receive/Waiting.antt =====
-- While `recv` waits, its step stays without a checkpoint, if the other transactions leave it so.
use dbos_transact_ts.Common.{
  ℕ, ◌+◌, false, String, true, Option, none, some, ◌≡◌, ◌≢◌, refl, ap, arith, All, first,
}
use dbos_transact_ts.SysDb.Schema.{Db, Notification}
use dbos_transact_ts.SysDb.Result.{Result, ok, err}
use dbos_transact_ts.SysDb.Steps.{find_step, new_step, then_return, record_operation_result}
use dbos_transact_ts.SysDb.Steps.Checkpoints.{
  find_step-record_operation_result, find_step-record_operation_result_other,
}
use dbos_transact_ts.SysDb.Steps.Replay.{then_return-ok}
use dbos_transact_ts.SysDb.Steps.Effects.{rollback-ok}
use dbos_transact_ts.SysDb.Polling.{poll, Course, Received, received_options, deadline}
use dbos_transact_ts.SysDb.Polling.Ending.{poll_keeps}
use dbos_transact_ts.SysDb.Sleep.{durable_sleep, funcname_sleep, sleep_options}
use dbos_transact_ts.SysDb.Messages.{is_waiting, consume}
use dbos_transact_ts.SysDb.Messages.Queue.{UniqueMessages}
use dbos_transact_ts.SysDb.Messages.Receive.{
  received_of, funcname_recv, receive, recv_last, recv_waiting, recv_polled,
}

then_return_leaves {ℓ} :
    {A : Type ℓ} (a : A) (x : Result (Unit {0}) × Db) → (then_return a x).1 ≡ x.1
then_return_leaves a (err e, d) = refl
then_return_leaves a (ok _, d) = refl

module _ (c : Course) (id : String) (fn : ℕ) where
  pub receive-new_step :
      (topic : String) (db : Db) (r : Received) (db' : Db)
      → find_step id fn db.operation_outputs ≡ none
      → receive c id fn topic db ≡ (ok r, db')
      → find_step id fn db'.operation_outputs
        ≡ some (new_step id fn funcname_recv c.started c.ended (received_options r))
  unfolding receive
  receive-new_step topic db r db' free h =
      let taken = consume id topic db.notifications in
      let x = received_of taken.0 in
      let db1 = record db { notifications = taken.1 } in
      let (recorded, same) = then_return-ok x r _ db' (rollback-ok r db db' _ h) in
      let found =
        find_step-record_operation_result c.executor id fn funcname_recv true c.started c.ended
          (received_options x) db1 free (ap (λ (p : Result (Unit {0}) × Db). p.0) recorded) in
      cc

  -- The step `fn` has no checkpoint, and the messages have ids of their own.
  abbrev pub IsReady : Db → Type 0
  IsReady d = (find_step id fn d.operation_outputs ≡ none) × UniqueMessages d.notifications

  pub deadline_fresh :
      (timeout_fn timeout_ms : ℕ) (db : Db)
      → timeout_fn ≢ fn
      → find_step id fn db.operation_outputs ≡ none
      → find_step id fn
          (deadline c.executor c.clock id timeout_fn timeout_ms db).1.operation_outputs
        ≡ none
  unfolding deadline durable_sleep
  deadline_fresh timeout_fn timeout_ms db apart fresh =
      let kept =
        find_step-record_operation_result_other c.executor id timeout_fn funcname_sleep false
          c.clock.started c.clock.ended (sleep_options (c.clock.asked + timeout_ms)) db fn apart
          fresh in
      ground (
        arith,
        fresh,
        kept,
        then_return_leaves (c.clock.asked + timeout_ms) (
            record_operation_result c.executor id timeout_fn funcname_sleep false c.clock.started
              c.clock.ended (sleep_options (c.clock.asked + timeout_ms)) db),
      )

  deadline_notifications :
      (timeout_fn timeout_ms : ℕ) (db : Db)
      → (deadline c.executor c.clock id timeout_fn timeout_ms db).1.notifications ≡ db.notifications
  unfolding deadline durable_sleep record_operation_result
  deadline_notifications timeout_fn timeout_ms db = ground arith

  pub deadline-IsReady :
      (timeout_fn timeout_ms : ℕ) (db : Db)
      → timeout_fn ≢ fn
      → IsReady db
      → IsReady (deadline c.executor c.clock id timeout_fn timeout_ms db).1
  deadline-IsReady timeout_fn timeout_ms db apart ready = (
    deadline_fresh timeout_fn timeout_ms db apart ready.0,
    rw (deadline_notifications timeout_fn timeout_ms db) ready.1,
  )

  pub recv_last-receive :
      (topic : String) (db : Db) (r : Received) (db' : Db)
      → recv_last c id fn topic db ≡ (ok r, db')
      → receive c id fn topic (c.before_commit (c.before_check db)) ≡ (ok r, db')
  unfolding recv_last
  recv_last-receive topic db r db' h = ground (arith, h)

  -- What the other transactions do gives the step no checkpoint and no id to two messages.
  abbrev pub KeepsReady : (Db → Db) → Type 0
  KeepsReady others = (d : Db) → IsReady d → IsReady (others d)

  pub recv_waiting-receive :
      (topic : String) (x : Result ℕ × Db) (r : Received) (db' : Db)
      → IsReady x.1
      → All (λ round. KeepsReady round.others) c.rounds
      → recv_waiting c id fn topic x ≡ some (ok r, db')
      → (d : Db) × IsReady d × (recv_last c id fn topic d ≡ (ok r, db'))
  recv_waiting-receive topic (err e, d) r db' fresh keep h = cc
  recv_waiting-receive topic (ok finish, d) r db' fresh keep h = polled _ refl h
    where
      polled :
          (y : Option (Result (Option Notification) × Db))
          → poll (some id) (λ d. first (is_waiting id topic) d.notifications) finish c.rounds d ≡ y
          → recv_polled c id fn topic y ≡ some (ok r, db')
          → (d : Db) × IsReady d × (recv_last c id fn topic d ≡ (ok r, db'))
      polled none e k = cc
      polled (some (err f, d1)) e k = cc
      polled (some (ok found, d1)) e k = (
        d1,
        poll_keeps (some id) (λ d. first (is_waiting id topic) d.notifications) finish IsReady
            c.rounds d fresh keep (ok found) d1 e,
        ground (arith, k),
      )
