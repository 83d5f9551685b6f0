-- ===== src/Pitr.antt =====
-- mysql-wrapper/src/pitr.rs: the pure rules of point-in-time recovery.
pub mod Keys
pub mod Binlog
pub mod Purge
pub mod Head
pub mod Replay
pub mod Fulls
pub mod Retention
pub mod Ownership
