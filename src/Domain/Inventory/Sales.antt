-- ===== src/Domain/Inventory/Sales.antt =====
-- Rows of sold items in the tables of app/domain/inventory/service.py, through each of its writes.
pub mod Writes
pub mod Kept
pub mod Operations
pub mod Sequences
pub mod Draining
pub mod Again
