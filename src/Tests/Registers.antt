-- ===== src/Tests/Registers.antt =====
-- Schedules, versions, registered_row queues and the states of event receivers.
use dbos_transact_ts.Common.{
  ℕ, String, true, false, Option, none, some, List, [], ◌∷◌, ◌≡◌, refl, arith, same,
}
use dbos_transact_ts.SysDb.Result.{ok}
use dbos_transact_ts.SysDb.Schedules.{
  Schedule, any, one, get_schedule, apply_schedules, list_schedules,
}
use dbos_transact_ts.SysDb.Schedules.Applied.{
  declared, apply_schedules-get_schedule, apply_schedules_again,
}
use dbos_transact_ts.SysDb.Dequeue.{VersionInfo}
use dbos_transact_ts.SysDb.Versions.{launch_version}
use dbos_transact_ts.Queue.Params.{
  QueueParameters, QueueRecord, validate_queue_params, record_from_params, from_record, get_queue,
}
use dbos_transact_ts.Queue.Registry.{register_queue, update_if_latest_version, updates_existing}
use dbos_transact_ts.Queue.Registry.Registration.{registered_row, register_queue-get_queue}
use dbos_transact_ts.SysDb.Dispatch.{
  DispatchState, get_event_dispatch_state, upsert_event_dispatch_state,
}
use dbos_transact_ts.SysDb.Dispatch.Growth.{timed, upsert_event_dispatch_state_order}

abbrev scheduled : String → String → String → Schedule
scheduled id name cron = record {
  schedule_id = id;
  schedule_name = name;
  workflow_name = "report";
  workflow_class_name = "";
  schedule = cron;
  status = "ACTIVE";
  context = "{}";
  last_fired_at = none;
  automatic_backfill = false;
  cron_timezone = none;
  queue_name = none;
}

abbrev nightly : List Schedule
nightly = record (scheduled "1" "nightly" "0 0 * * *") { status = "PAUSED" } ∷ []

abbrev declarations : List Schedule
declarations = scheduled "2" "nightly" "0 3 * * *" ∷ scheduled "3" "hourly" "0 * * * *" ∷ []

abbrev applied : List Schedule
applied = (apply_schedules declarations nightly).1

apply_schedules-get_schedule_example :
    get_schedule "nightly" applied
    ≡ declared "nightly" declarations (get_schedule "nightly" nightly)
apply_schedules-get_schedule_example =
    apply_schedules-get_schedule "nightly" declarations nightly applied
      (unfold apply_schedules same in refl)

apply_schedules_again_example :
    (t'' : List Schedule) × (apply_schedules declarations applied ≡ (ok tt, t''))
    × ((name : String) → get_schedule name t'' ≡ get_schedule name applied)
apply_schedules_again_example =
    apply_schedules_again declarations nightly applied (unfold apply_schedules same in refl)

nightly_test :
    get_schedule "nightly" applied
    ≡ some (record (scheduled "1" "nightly" "0 3 * * *") { status = "PAUSED" })
unfolding apply_schedules get_schedule same
nightly_test = refl

listed_test :
    list_schedules same
      (λ a b. true)
      (record { status = one "ACTIVE"; workflow_name = any; schedule_name_prefix = one "" })
      applied
    ≡ ok (scheduled "3" "hourly" "0 * * * *" ∷ [])
unfolding list_schedules apply_schedules same
listed_test = refl

abbrev offset : Option String → ℕ → DispatchState
offset = timed "kafka" "consume" "topic"

empty_key :
    (old : DispatchState)
    → get_event_dispatch_state "kafka" "consume" "topic" [] ≡ some old
    → old.update_seq ≡ none
unfolding get_event_dispatch_state
empty_key old h = cc

upsert_event_dispatch_state_order_example :
    get_event_dispatch_state "kafka" "consume" "topic"
      (upsert_event_dispatch_state
        (offset (some "b") 5)
        (upsert_event_dispatch_state (offset (some "a") 7) []).1).1
    ≡ get_event_dispatch_state "kafka" "consume" "topic"
        (upsert_event_dispatch_state
          (offset (some "a") 7)
          (upsert_event_dispatch_state (offset (some "b") 5) []).1).1
upsert_event_dispatch_state_order_example =
    upsert_event_dispatch_state_order "kafka" "consume" "topic" (some "a") (some "b") 7 5 []
      (λ e. omega (arith, e)) empty_key

abbrev versions : List VersionInfo
versions =
    record { version_name = "v1"; version_timestamp = 3 }
    ∷ record { version_name = "v2"; version_timestamp = 5 }
    ∷ []

launch_test : (launch_version 9 "v1" versions).0 ≡ ok false
unfolding launch_version same
launch_test = refl

abbrev params : ℕ → QueueParameters
params n = record {
  worker_concurrency = none;
  concurrency = some n;
  rate_limit = none;
  priority_enabled = none;
  partition_queue = none;
  min_polling_interval_ms = none;
}

abbrev queues : List QueueRecord
queues = record_from_params "mail" (params 2) ∷ []

-- "v1" is not the latest version, so that the row stays.
register_queue-get_queue_example :
    let (result, t') =
      register_queue update_if_latest_version "v1" versions "mail" (params 7) queues in
    let row =
      registered_row false (record_from_params "mail" (params 7)) (get_queue "mail" queues) in
    (result ≡ ok (from_record row))
    × (get_queue "mail" t' ≡ some row)
    × ((other : String) → same "mail" other ≡ false → get_queue other t' ≡ get_queue other queues)
register_queue-get_queue_example =
    register_queue-get_queue update_if_latest_version "v1" versions "mail" (params 7) queues false
      (unfold validate_queue_params in refl) (unfold updates_existing same in refl)
