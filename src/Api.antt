-- ===== src/Api.antt =====
-- The HTTP API of the resellers, under app/api.
pub mod Auth
