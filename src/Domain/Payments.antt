-- ===== src/Domain/Payments.antt =====
-- app/domain/payments.
pub mod Fingerprint
pub mod Types
pub mod Verification
pub mod Service
pub mod Quote
pub mod Creation
