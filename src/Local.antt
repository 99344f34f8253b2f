-- ===== src/Local.antt =====
-- local/: the durable records of one client and the decisions that are taken from them.
pub mod Records
pub mod Journal
pub mod Evidence
pub mod Orchestrate
pub mod Detect
