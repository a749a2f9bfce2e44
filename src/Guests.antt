-- ===== src/Guests.antt =====
-- What aioproxmox/model/guest.py reads out of a guest's answers.
pub mod Usage
pub mod Addresses
pub mod Snapshots
