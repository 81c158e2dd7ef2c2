-- ===== src/Lib.antt =====
-- DBOS Transact (TypeScript): the durable workflow engine.
--
-- A program registers workflows and steps. The engine keeps a row per workflow in the table
-- `workflow_status` and a row per completed step in `operation_outputs`; a workflow that is
-- interrupted is started again and replays its steps from their rows. Workflows talk through the tables
-- `notifications`, `workflow_events` and `streams`. Executors meet in the database alone, so that the
-- statements of src/system_database.ts are the engine's core, and the model is made of them.
--
-- A table is a list of rows, and a method of `SystemDatabase` a function from the tables to a result
-- and the tables that its transaction leaves behind; a rolled back transaction gives the tables back
-- unchanged. The clock, the executor's ID and what other transactions hold locked are arguments.
--
--   Common          texts, lists, statements on one table, decimal numbers
--   Queue/Params    src/wfqueue.ts: WorkflowQueue, its checks, its row and its setters
--   Queue/Registry  registerQueue and retrieveQueue of src/dbos.ts and src/client.ts, upsertQueue
--   Queue/Runner    src/wfqueue.ts: WFQueueRunner, which queues it tracks and which polls it starts
--   SysDb/Schema    schemas/system_db_schema.ts, src/workflow.ts: rows and statuses
--   SysDb/Result    src/error.ts: the errors
--   SysDb/Outcome   updateWorkflowStatus, #recordWorkflowOutcome, setWorkflowStatus, #checkIfCanceled
--   SysDb/Manage    cancelWorkflows, resumeWorkflows, setWorkflowPriority, setWorkflowDelay,
--                   reenqueueWorkflowsForRecovery, transitionDelayedWorkflows, garbageCollect
--   SysDb/Family    getWorkflowChildren, deleteWorkflows and the cascade of cancelWorkflows
--   SysDb/Init      initWorkflowStatus and insertWorkflowStatus
--   SysDb/Batch     enqueueWorkflows and #assignBatchCreatedAt
--   SysDb/Debounce  debounceDelayedWorkflow
--   SysDb/Dequeue   findAndMarkStartableWorkflows
--   SysDb/Steps     recordOperationResult, #runAndRecordResult, runTransactionalStep
--   SysDb/Sleep     #durableSleep
--   SysDb/Polling   the polling loops, with what other transactions do between two looks
--   SysDb/Messages  send, sendDirect and recv
--   SysDb/Events    setEvent and getEvent
--   SysDb/Streams   writeStreamFromStep, writeStreamFromWorkflow, closeStream, readStreamValue, and
--                   readStream of src/dbos.ts and src/client.ts
--   SysDb/Fork      forkWorkflow, forkFromFailure and bulkForkWorkflows
--   SysDb/Awaiting  awaitWorkflowResult, awaitFirstWorkflowId, awaitWorkflowIds
--   SysDb/Transfer  exportWorkflow and importWorkflow
--   SysDb/Patch     checkPatch
--   SysDb/Retry     dbRetry, the loop around a method while the connection is lost, and
--                   retriablePostgresException, with the walk of unwrapErrors
--   SysDb/Schedules workflow_schedules: create, list, update, delete and applySchedules
--   SysDb/Versions  application_versions, and what a launch does with them
--   SysDb/Dispatch  event_dispatch_kv, the state of event receivers
--   SysDb/Life      starts, batches, outcomes, changes, recoveries and dequeues as the steps of a state
--                   machine over a workflow's status
--   Executor        src/dbos-executor.ts: the attempts of callStepFunction
--   Tests           concrete tables on which the theorems are applied
--
-- Numbers are natural numbers, as times in milliseconds and counts are; the source's `Infinity` and
-- its undefined limits are `none`. A query takes the rows of a table in their order of insertion
-- where the source leaves the order to the database. A loop over a search has fuel: two rounds
-- more than the table has rows, since each round but the first two meets a row for the first time. A
-- loop that polls is given its rounds, as a list of what the other transactions do before each look at
-- the tables and the clock at it; its result is an option, empty where the rounds end before the loop
-- does, and a theorem says when it does end. The wakeups of LISTEN/NOTIFY only move the looks in time.
--
-- The turns of the retries are given in the same way, each with its random number in thousandths.
-- The walk of unwrapErrors has fuel too: one round more than the errors hold values is enough.
--
-- Not modelled: the running scheduler and its cron expressions (crontab.ts is adapted from
-- node-cron), listings of workflows and metrics, the executor's other promises and contexts,
-- serialization, configuration, telemetry and the adapters under packages/. Messages of errors and
-- warnings are left out.
mod Common
mod Tests
pub mod Queue
pub mod SysDb
pub mod Executor
