-- ===== src/Schema.antt =====
-- script/refresh_pve_api.py: what is kept of Proxmox's API schema.
pub mod Flatten
pub mod Described
pub mod Rounds
pub mod Kept
pub mod Written
pub mod Generated
