-- ===== src/Holders.antt =====
-- The token holder snapshots (batch/indexer_token_holders.py).
pub mod Book
pub mod Events
pub mod Table
pub mod Collect
pub mod Supply
pub mod Pages
pub mod Save
pub mod Progress
mod Tests
