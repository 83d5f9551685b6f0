-- ===== src/Pitr/Retention.antt =====
-- mysql-wrapper/src/pitr.rs: archive retention. `Types` holds what a sweep reads and plans,
-- `Lineage` and `Shared` the rules for independent histories and for one shared history, `Plan`
-- the planner; the other children prove.
pub mod Types
pub mod Lineage
pub mod Shared
pub mod Plan
pub mod Sweep
pub mod Guards
pub mod Promise
pub mod Retired
pub mod Merge
pub mod Oldest
pub mod Window
