-- ===== src/Tests.antt =====
-- Runs of the model on concrete inputs, and the theorems applied to them.
mod Net
mod Mixed
mod Hosts
mod Failover
mod Requests
mod Logins
mod Cluster
mod Endpoints
mod Health
mod Ha
mod Summary
mod Disks
mod Guests
mod Schema
