-- ===== src/Disks.antt =====
-- What aioproxmox/model/disks.py reads out of a drive's answers.
pub mod Numbers
pub mod Smart
pub mod Log
pub mod Readings
