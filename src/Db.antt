-- ===== src/Db.antt =====
-- The repositories under app/db.
pub mod Ledger
pub mod Consumptions
pub mod Reconciliation
pub mod Transactions
