-- ===== src/Tests/Queues.antt =====
-- Queue configurations, batches and debounced workflows.
use dbos_transact_ts.Common.{
  select, ℕ, String, true, none, some, List, [], ◌∷◌, ◌≡◌, refl, same, any_of, ◌<◌, Option, All,
}
use dbos_transact_ts.Queue.Params.{
  WorkflowQueue, QueueParameters, QueueRecord, record_from_params, from_record, set_concurrency,
}
use dbos_transact_ts.Queue.Params.Changes.{Setting, IsValid, configure-IsValid}
use dbos_transact_ts.SysDb.Schema.{WorkflowStatus, enqueued, delayed}
use dbos_transact_ts.SysDb.Rows.{find_row}
use dbos_transact_ts.SysDb.Result.{ok}
use dbos_transact_ts.SysDb.Init.{InitStatus}
use dbos_transact_ts.SysDb.Batch.{
  Cursors, no_cursors, counts, assign_batch_created_at, enqueue_workflows,
}
use dbos_transact_ts.SysDb.Batch.Order.{stamps_of, assign_batch_created_at_after}
use dbos_transact_ts.SysDb.Batch.Redelivery.{enqueue_workflows_again}
use dbos_transact_ts.SysDb.Debounce.{DebounceParams, no_holder, debounce_delayed_workflow}
use dbos_transact_ts.SysDb.Debounce.Bounce.{debounce_delayed_workflow-bounces}
use dbos_transact_ts.Tests.Fixtures.{table, row, call}

abbrev limited : QueueParameters
limited = record {
  worker_concurrency = some 2;
  concurrency = some 5;
  rate_limit = some (record { limit_per_period = some 10; period_sec = some 60 });
  priority_enabled = some true;
  partition_queue = none;
  min_polling_interval_ms = none;
}

abbrev stored : List QueueRecord
stored = record_from_params "payments" limited ∷ []

abbrev queue : WorkflowQueue
queue = from_record (record_from_params "payments" limited)

configure-IsValid_example : IsValid (record queue { concurrency = some 3 })
configure-IsValid_example =
    configure-IsValid (Setting.concurrency (some 3)) queue stored
      (record queue { concurrency = some 3 })
      (unfold from_record record_from_params in (refl, refl))
      (unfold set_concurrency from_record record_from_params in refl)

abbrev parts : List (Option String)
parts = some "p" ∷ none ∷ some "p" ∷ []

abbrev stamped : List ℕ × Cursors
stamped = assign_batch_created_at 100 parts [] no_cursors

-- The workflows of the partition get the times 100 and 101.
stamped_times : stamped.0 ≡ 100 ∷ 100 ∷ 101 ∷ []
unfolding assign_batch_created_at any_of same
stamped_times = refl

abbrev old : List WorkflowStatus
old = record (row "o" enqueued 700) { queue_partition_key = some "p" } ∷ []

assign_batch_created_at_after_example :
    All
      (λ r.
        All
          (λ n. r.created_at < n)
          (stamps_of "p" parts (assign_batch_created_at 100 parts old no_cursors).0))
      (select (counts "p") old)
assign_batch_created_at_after_example =
    assign_batch_created_at_after "p" 100 parts old no_cursors refl

abbrev batch : List InitStatus
batch = record (call "n") { status = enqueued; queue_name = some "payments" } ∷ []

enqueue_workflows_again_example :
    let t' = (enqueue_workflows 100 batch table no_cursors).1 in
    let (again, t'', _) = enqueue_workflows 200 batch t' no_cursors in (again ≡ ok []) × (t'' ≡ t')
enqueue_workflows_again_example =
    enqueue_workflows_again 100 200 batch table no_cursors no_cursors ("n" ∷ [])
      (unfold enqueue_workflows same in refl)

abbrev bounce : DebounceParams
bounce = record {
  workflow_name = "transfer";
  workflow_class_name = "";
  queue_name = "payments";
  deduplication_id = "key";
  delay_until_epoch_ms = 900;
  input = some "[2]";
  serialization = none;
}

abbrev sleeper : WorkflowStatus
sleeper = record (row "s" delayed 4) {
  deduplication_id = some "key";
  is_debounced = true;
  debounce_deadline_epoch_ms = some 800;
}

debounce_delayed_workflow-bounces_example :
    ((debounce_delayed_workflow 9 bounce (sleeper ∷ [])).0
      ≡ record no_holder { bounced_workflow_id = some "s" })
    × (find_row "s" (debounce_delayed_workflow 9 bounce (sleeper ∷ [])).1
        ≡ some (record sleeper {
          delay_until_epoch_ms = some 800;
          inputs = some "[2]";
          serialization = none;
          updated_at = 9;
        }))
debounce_delayed_workflow-bounces_example =
    debounce_delayed_workflow-bounces 9 bounce (sleeper ∷ []) sleeper (unfold same in refl)
      (unfold find_row same in refl)
