-- ===== src/Archiver.antt =====
-- mysql-wrapper/src/archiver.rs: shipping binlogs, reclaiming them, and the latch of full backups.
pub mod Ship
pub mod Reclaim
pub mod Latch
pub mod Supervisor
