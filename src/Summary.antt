-- ===== src/Summary.antt =====
-- aioproxmox/model/summary.py: what can be worked out of the lists that the API gives.
pub mod Backups
pub mod Totals
pub mod Ports
