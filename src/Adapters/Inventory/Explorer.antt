-- ===== src/Adapters/Inventory/Explorer.antt =====
-- adapters/aws_inventory.py: the Resource Explorer search, with its query language.
pub mod Query
pub mod Item
pub mod Search
pub mod Refuses
