-- ===== src/Tests/Replays.antt =====
-- Steps, sleeps and patches of a workflow of the test table.
use dbos_transact_ts.Common.{String, false, Option, some, [], ◌∷◌, ◌≡◌, refl, same}
use dbos_transact_ts.SysDb.Schema.{Db, OperationOutput}
use dbos_transact_ts.SysDb.Result.{Result, ok, err, bad_request}
use dbos_transact_ts.SysDb.Outcome.{check_if_canceled}
use dbos_transact_ts.SysDb.Steps.{find_step, new_step, only_output, run_and_record_result}
use dbos_transact_ts.SysDb.Steps.Replay.{run_and_record_result_once}
use dbos_transact_ts.SysDb.Sleep.{Clock, durable_sleep}
use dbos_transact_ts.SysDb.Patch.{check_patch}
use dbos_transact_ts.Tests.Fixtures.{db}

abbrev pub charged : OperationOutput
charged = new_step "a" 0 "charge" 4 5 (only_output (some "10"))

abbrev pub recorded_db : Db
recorded_db = record db { operation_outputs = charged ∷ [] }

abbrev charge : Db → Result (Option String) × Db
charge d = (ok (some "10"), d)

abbrev pub failing : Db → Result (Option String) × Db
failing d = (err bad_request, record d { operation_outputs = charged ∷ [] })

at_step : find_step "a" 0 recorded_db.operation_outputs ≡ some charged
unfolding find_step new_step same
at_step = refl

abbrev after_charge : Db
after_charge = (run_and_record_result "local" 4 5 "charge" "a" 0 charge db).1

run_and_record_result_once_example :
    run_and_record_result "other" 8 9 "charge" "a" 0 failing after_charge
    ≡ (ok (some "10"), after_charge)
run_and_record_result_once_example =
    run_and_record_result_once "local" 4 5 "charge" "a" 0 charge db (some "10") after_charge
      (unfold find_step in refl) (unfold run_and_record_result same in refl)
      (unfold find_step in refl) (unfold run_and_record_result check_if_canceled same in refl)
      "other" 8 9 failing

abbrev pub clock : Clock
clock = record { asked = 40; started = 41; ended = 42 }

abbrev asleep : Db
asleep = (durable_sleep "local" clock "a" 0 1000 db).1

abbrev patched : Db
patched = (check_patch 4 "a" 0 "v2" false db).1
