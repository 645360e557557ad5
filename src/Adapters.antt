-- ===== src/Adapters.antt =====
-- The ports of the application and their adapters (src/aws_remote_mcp/adapters).
pub mod Protocols
pub mod Fakes
pub mod Values
pub mod Inventory
pub mod Integrations
pub mod CostExplorer
