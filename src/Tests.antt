-- ===== src/Tests.antt =====
-- Concrete tables on which the theorems about src/system_database.ts are applied.
mod Fixtures
mod Outcomes
mod Dequeues
mod Starts
mod Replays
mod Queues
mod Runners
mod Management
mod Messages
mod Streams
mod Forks
mod Attempts
mod Registers
mod Retries
