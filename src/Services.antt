-- ===== src/Services.antt =====
-- The application services (src/aws_remote_mcp/services).
pub mod Tools
pub mod Requests
