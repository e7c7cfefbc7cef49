-- ===== src/Plugins.antt =====
-- The plugins.
pub mod Hooks
