-- ===== src/Delivery.antt =====
-- The DVP delivery indexer, batch/indexer_dvp_delivery.py.
pub mod Table
pub mod Events
pub mod Sync
pub mod Rows
pub mod Keeps
pub mod Passes
pub mod Runs
pub mod Failures
pub mod Progress
pub mod Contracts
mod Tests
