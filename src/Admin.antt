-- ===== src/Admin.antt =====
-- The admin panel, under app/admin.
pub mod Permissions
