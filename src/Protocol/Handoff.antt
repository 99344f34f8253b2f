-- ===== src/Protocol/Handoff.antt =====
-- protocol/handoff.py: the commit of a handoff.
pub mod Request
pub mod Plan
pub mod Stage
pub mod Archive
pub mod Keeps
pub mod Failures
pub mod Owned
pub mod Cleanup
pub mod Commit
pub mod Unlocked
pub mod Effect
