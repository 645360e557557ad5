-- ===== src/Tests.antt =====
-- Concrete surroundings and the theorems applied to them.
pub mod World
pub mod Confirmations
pub mod Queries
pub mod Requests
pub mod Servers
pub mod Messages
pub mod Inventories
pub mod Gateways
pub mod Costs
pub mod Enrollments
pub mod Shutdowns
pub mod Integrations
