-- ===== src/Cluster.antt =====
-- What is read off the rows of `cluster/resources`.
pub mod Cache
pub mod Storage
