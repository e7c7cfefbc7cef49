-- ===== src/Gateway.antt =====
-- The gateway: the per-session command queue (gateway/command_queue).
pub mod Lane
pub mod Queue
