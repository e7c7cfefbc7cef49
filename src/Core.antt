-- ===== src/Core.antt =====
-- The agent's core: subagents, token usage, and the ways a long conversation is shortened.
pub mod Subagent
pub mod Usage
pub mod Messages
pub mod Pruner
pub mod Compaction
pub mod SessionCompaction
pub mod ContextEngine
pub mod Cron
