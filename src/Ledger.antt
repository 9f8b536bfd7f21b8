-- ===== src/Ledger.antt =====
-- packages/payops_core/ledger: the double-entry transfer and what it reads and writes.
pub mod Rows
pub mod Database
pub mod Accounts
pub mod Monad
pub mod Transfer
pub mod Run
pub mod Checks
pub mod Seeding
pub mod Body
pub mod Outcomes
pub mod Balances
pub mod Decisions
pub mod Safety
pub mod Batch
pub mod Reads
