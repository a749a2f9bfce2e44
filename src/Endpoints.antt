-- ===== src/Endpoints.antt =====
-- aioproxmox/endpoints.py: the routes of the API.
pub mod Access
pub mod Calls
pub mod Cluster
pub mod Guests
pub mod Nodes
pub mod Answers
pub mod Learned
pub mod Followed
pub mod Backups
pub mod Objects
pub mod Privileged
pub mod Permitted
