-- ===== src/IssueRedeem.antt =====
-- The issue and redeem indexer (batch/indexer_issue_redeem.py) and its table
-- (app/model/db/idx_issue_redeem.py).
pub mod Index
pub mod Sync
pub mod Rows
pub mod Passes
pub mod Returns
pub mod Complete
pub mod Listed
mod Tests
