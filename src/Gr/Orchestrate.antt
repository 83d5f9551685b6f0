-- ===== src/Gr/Orchestrate.antt =====
-- mysql-wrapper/src/gr.rs: `orchestrate`, the loop that brings a node into its group. One turn of
-- the loop is a function of the node and of what the turn finds; what the turn does to the server
-- and the volume is a list of deeds, each statement standing there whether it succeeds or not.
-- The texts that suppress repeated log lines, the pauses and the telemetry are not kept.
pub mod Local
pub mod Node
pub mod Live
pub mod Bootstrapping
pub mod Loop
pub mod Stages
pub mod Guards
pub mod Donor
pub mod BlockSize
pub mod Reach
pub mod Acts
pub mod Joining
pub mod Join
pub mod Cloning
pub mod Fork
pub mod Alone
pub mod Picture
pub mod Generation
pub mod Dwell
pub mod Waiting
pub mod Standing
pub mod Tracking
pub mod Clocks
pub mod Startup
pub mod Settled
pub mod Deferral
pub mod Unique
