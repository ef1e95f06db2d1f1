-- ===== src/Core.antt =====
-- The helpers under app/core.
pub mod Money
pub mod Security
