-- ===== src/Client.antt =====
-- aioproxmox/__init__.py: the client, its authentication and its way through the cluster's hosts.
pub mod State
pub mod Env
pub mod Hosts
pub mod Auth
pub mod Once
pub mod Failover
pub mod Network
pub mod Keeps
pub mod Coherence
pub mod Cost
pub mod Burst
pub mod Construction
pub mod Request
