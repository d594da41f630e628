-- ===== src/Approval.antt =====
-- The transfer approval indexer (batch/indexer_transfer_approval.py) and its table
-- (app/model/db/idx_transfer_approval.py).
pub mod Table
pub mod Events
pub mod Notify
pub mod Sync
pub mod Rows
pub mod Failures
pub mod Notices
pub mod Progress
pub mod Absent
pub mod Oversized
mod Tests
