-- ===== src/Core.antt =====
-- The application core (src/aws_remote_mcp/core): models, guards and validated parameters.
pub mod Models
pub mod Audit
pub mod Calendar
pub mod Operations
pub mod CostQuery
pub mod CostQuota
pub mod Confirmation
