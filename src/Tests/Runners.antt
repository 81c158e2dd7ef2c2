-- ===== src/Tests/Runners.antt =====
-- The dispatcher of queues with one queue in memory and one in the database.
use dbos_transact_ts.Common.{true, false, none, some, [], ◌∷◌}
use dbos_transact_ts.Queue.Params.{QueueRecord}
use dbos_transact_ts.Queue.Runner.{QueueRuntimeState, Runner}
use dbos_transact_ts.Tests.Fixtures.{payments}

abbrev emails : QueueRecord
emails = record {
  name = "emails";
  concurrency = some 4;
  worker_concurrency = none;
  rate_limit_max = none;
  rate_limit_period_sec = none;
  priority_enabled = false;
  partition_queue = false;
  polling_interval_ms = 500;
}

abbrev in_memory : QueueRuntimeState
in_memory = record {
  queue = record payments { database_backed = false };
  current_polling_ms = 1000;
  next_poll_at = 7000;
}

abbrev runner : Runner
runner = record {
  is_running = true;
  queues_by_name = record payments { database_backed = false } ∷ [];
  poller_queue_names = [];
  listen_queue_names = none;
  states = in_memory ∷ [];
}
