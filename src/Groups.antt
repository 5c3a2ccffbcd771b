-- ===== src/Groups.antt =====
-- Groups of engine/src/services/groups.ts.
pub mod Inventory
pub mod Rules
pub mod Saving
pub mod Members
