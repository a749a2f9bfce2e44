-- ===== src/Model.antt =====
-- The typed models of aioproxmox/model and the functions over them.
pub mod Enums
pub mod Resources
pub mod Decode
pub mod Permissions
pub mod Nodes
pub mod Guests
pub mod Disks
pub mod Health
pub mod Serving
