-- ===== src/Tools.antt =====
-- The agent's tools.
pub mod Chain
