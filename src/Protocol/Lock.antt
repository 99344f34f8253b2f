-- ===== src/Protocol/Lock.antt =====
-- protocol/lock.py: the upload lock.
pub mod Document
pub mod Inspect
pub mod Acquire
pub mod Release
pub mod Repair
pub mod Observes
pub mod Keeps
pub mod Exclusive
pub mod Progress
pub mod Recorded
pub mod Effect
pub mod RepairKeeps
