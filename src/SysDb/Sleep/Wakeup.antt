-- ===== src/SysDb/Sleep/Wakeup.antt =====
-- A durable sleep keeps the deadline of its first call.
use dbos_transact_ts.Common.{
  ℕ, ◌+◌, String, false, none, some, ◌≡◌, arith, parse-print, Option-cases, inl, inr, ap, sym,
  same_refl,
}
use dbos_transact_ts.SysDb.Schema.{Db}
use dbos_transact_ts.SysDb.Result.{Result, ok}
use dbos_transact_ts.SysDb.Outcome.{check_if_canceled}
use dbos_transact_ts.SysDb.Steps.{find_step, record_operation_result, then_return, new_step}
use dbos_transact_ts.SysDb.Steps.Checkpoints.{find_step-record_operation_result}
use dbos_transact_ts.SysDb.Steps.Replay.{check_if_canceled-record_operation_result, then_return-ok}
use dbos_transact_ts.SysDb.Sleep.{Clock, durable_sleep, funcname_sleep, sleep_options}

module _ (executor : String) (clock : Clock) (id : String) (fn duration_ms : ℕ) (db : Db) where
  abbrev slept : Result ℕ × Db
  slept = durable_sleep executor clock id fn duration_ms db

  abbrev deadline_now : ℕ
  deadline_now = clock.asked + duration_ms

  durable_sleep_ran :
      (deadline : ℕ) (db' : Db)
      → find_step id fn db.operation_outputs ≡ none
      → slept ≡ (ok deadline, db')
      → (then_return deadline_now (
            record_operation_result executor id fn funcname_sleep false clock.started clock.ended
              (sleep_options deadline_now)
              db)
          ≡ (ok deadline, db'))
        × (check_if_canceled id db.workflow_status ≡ ok tt)
  unfolding durable_sleep
  durable_sleep_ran deadline db' fresh h = ground (arith, fresh, h)

  -- The first call of a sleep ends it its duration after the call, and records that.
  pub durable_sleep_first :
      (deadline : ℕ) (db' : Db)
      → find_step id fn db.operation_outputs ≡ none
      → slept ≡ (ok deadline, db')
      → (deadline ≡ clock.asked + duration_ms)
        × (find_step id fn db'.operation_outputs
            ≡ some
                (new_step id fn funcname_sleep clock.started clock.ended (sleep_options deadline)))
        × (check_if_canceled id db'.workflow_status ≡ ok tt)
  durable_sleep_first deadline db' fresh h =
      let (ran, free) = durable_sleep_ran deadline db' fresh h in
      let (recorded, time) = then_return-ok deadline_now deadline _ db' ran in
      let found =
        find_step-record_operation_result executor id fn funcname_sleep false clock.started
          clock.ended (sleep_options deadline_now) db fresh
          (ap (λ (p : Result (Unit {0}) × Db). p.0) recorded) in
      let kept =
        check_if_canceled-record_operation_result executor id fn funcname_sleep false clock.started
          clock.ended (sleep_options deadline_now) db id in
      (sym time, cc, cc)

  -- Every later call of the same sleep, after a crash, by any executor, at any time and with any
  -- duration, returns the deadline of the first one and changes nothing.
  pub durable_sleep_again :
      (deadline : ℕ) (db' : Db)
      → slept ≡ (ok deadline, db')
      → (executor' : String) (clock' : Clock) (duration' : ℕ)
      → durable_sleep executor' clock' id fn duration' db' ≡ (ok deadline, db')
  unfolding durable_sleep
  durable_sleep_again deadline db' h executor' clock' duration' =
      elim (Option-cases (find_step id fn db.operation_outputs)) [
        | inl fresh ↦
            let (_, found, free) = durable_sleep_first deadline db' fresh h in
            ground (arith, found, free, parse-print deadline, same_refl funcname_sleep)
        | inr (o, found) ↦ ground (arith, h, found)
      ]
