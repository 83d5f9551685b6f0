-- ===== src/Gr.antt =====
-- mysql-wrapper/src/gr.rs, peers.rs and parts of sql.rs and config.rs: Group Replication
-- orchestration.
pub mod State
pub mod Bootstrap
pub mod Majority
pub mod Gone
pub mod Watch
pub mod Answers
pub mod Orchestrate
