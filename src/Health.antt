-- ===== src/Health.antt =====
-- aioproxmox/model/health.py: what a node and a cluster say about their health.
pub mod Time
pub mod Ceph
pub mod Ha
pub mod Replication
