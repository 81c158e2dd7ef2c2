-- ===== src/SysDb/Sleep.antt =====
-- `#durableSleep`: the time at which a sleep ends is a checkpoint of its workflow. The checkpoint's
-- text is the decimal print of that time, as `DBOSPortableJSON.stringify` makes it; a stored text
-- that is no such number is `bad_request` here.
pub mod Wakeup
use dbos_transact_ts.Common.{
  ℕ, ◌+◌, String, false, Option, none, some, column_is, if◌then◌else◌, print, parse,
}
use dbos_transact_ts.SysDb.Schema.{Db, OperationOutput}
use dbos_transact_ts.SysDb.Result.{Result, ok, err, unexpected_step, bad_request}
use dbos_transact_ts.SysDb.Steps.{
  StepOptions, only_output, record_operation_result, get_operation_result_and_throw_if_cancelled,
  then_return,
}

-- `DBOS_FUNCNAME_SLEEP`
abbrev pub funcname_sleep : String
funcname_sleep = "DBOS.sleep"

abbrev pub read_time : Option String → Result ℕ
read_time none = err bad_request
read_time (some s) = elim (parse s) [ none ↦ err bad_request | some n ↦ ok n ]

-- The three readings of the clock: for the deadline, and for the checkpoint.
pub record Clock : Type 0 where
  pub asked : ℕ
  pub started : ℕ
  pub ended : ℕ

-- The checkpoint's columns: the time, in the portable format.
abbrev pub sleep_options : ℕ → StepOptions
sleep_options time = record (only_output (some (print time))) {
  serialization = some "portable_json";
}

unfoldable pub durable_sleep : String → Clock → String → ℕ → ℕ → Db → Result ℕ × Db
unfolding get_operation_result_and_throw_if_cancelled record_operation_result
durable_sleep executor clock id fn duration_ms db =
    elim (get_operation_result_and_throw_if_cancelled id fn db) [
      | err e ↦ (err e, db)
      | ok (some o) ↦ (
        if column_is o.function_name funcname_sleep
            then read_time o.output
            else err (unexpected_step id fn funcname_sleep o.function_name),
        db,
      )
      | ok none ↦ then_return (clock.asked + duration_ms) (
          record_operation_result executor id fn funcname_sleep false clock.started clock.ended
            (record (only_output (some (print (clock.asked + duration_ms)))) {
              serialization = some "portable_json";
            })
            db)
    ]
