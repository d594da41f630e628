-- ===== src/DvpTx.antt =====
-- The processor of asynchronous DVP transactions, batch/processor_dvp_async_tx.py.
pub mod Process
pub mod Rows
pub mod Places
pub mod Kept
pub mod Endless
pub mod Ends
pub mod Composed
mod Tests
