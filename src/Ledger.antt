-- ===== src/Ledger.antt =====
-- Ledger creation (app/utils/ibet_ledger_utils.py, batch/processor_create_ledger.py) and its tables
-- (app/model/db/ledger.py, app/model/db/idx_personal_info.py).
pub mod Tables
pub mod Dataset
pub mod Request
pub mod Finalize
pub mod Process
pub mod Completes
pub mod Finishes
pub mod Forgotten
pub mod Sources
pub mod Entries
pub mod Sums
pub mod Days
mod Tests
