-- ===== src/Utxo.antt =====
-- The UTXO processor (batch/processor_create_utxo.py) and its table (app/model/db/utxo.py).
pub mod Table
pub mod Sink
pub mod Totals
pub mod Loops
pub mod Holdings
pub mod Balances
pub mod Provenance
pub mod Keys
pub mod Events
pub mod Process
pub mod Fifo
pub mod Movements
pub mod Supply
pub mod Failures
mod Tests
