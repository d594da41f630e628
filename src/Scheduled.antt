-- ===== src/Scheduled.antt =====
-- The processor of scheduled events (batch/processor_scheduled_events.py) and its table
-- (app/model/db/scheduled_events.py).
pub mod Table
pub mod Workers
pub mod Exclusion
pub mod Rows
pub mod Tasks
pub mod Pending
pub mod Failures
mod Tests
