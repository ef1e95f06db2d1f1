-- ===== src/Domain/Orders.antt =====
-- Orders, under app/domain/orders.
pub mod Lifecycle
pub mod Refunds
pub mod Closing
pub mod Creation
pub mod Delivery
