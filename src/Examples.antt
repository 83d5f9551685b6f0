-- ===== src/Examples.antt =====
-- Runs of the model at concrete inputs, and instances of its theorems.
mod Archive
mod Retention
mod Group
mod Ownership
mod SelfHeal
mod Watch
mod Archiver
mod Head
mod Serving
mod Orchestrate
mod Bootstrapping
