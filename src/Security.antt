-- ===== src/Security.antt =====
-- The guards of the gateway and of the agent: rate limits, roles, tool permissions, approvals.
pub mod RateLimiter
pub mod Rbac
pub mod ToolPermissions
pub mod Glob
pub mod ExecApproval
pub mod Scope
