-- ===== src/SysDb.antt =====
-- src/system_database.ts: the tables of the system database and the statements on them.
pub mod Schema
pub mod Result
pub mod Rows
pub mod Outcome
pub mod Manage
pub mod Family
pub mod Init
pub mod Batch
pub mod Debounce
pub mod Dequeue
pub mod Steps
pub mod Life
pub mod Polling
pub mod Messages
pub mod Events
pub mod Streams
pub mod Fork
pub mod Awaiting
pub mod Transfer
pub mod Retry
pub mod Sleep
pub mod Patch
pub mod Versions
pub mod Dispatch
pub mod Schedules
