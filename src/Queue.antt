-- ===== src/Queue.antt =====
-- src/wfqueue.ts: workflow queues.
pub mod Params
pub mod Registry
pub mod Runner
