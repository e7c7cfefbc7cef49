-- ===== src/Channels.antt =====
-- The messaging channels.
pub mod Policy
