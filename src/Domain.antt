-- ===== src/Domain.antt =====
-- The business logic under app/domain.
pub mod Enums
pub mod Catalog
pub mod Users
pub mod StateMachines
pub mod Payments
pub mod Orders
pub mod Coupons
pub mod Inventory
pub mod Referrals
pub mod Resellers
pub mod Webhooks
pub mod Support
