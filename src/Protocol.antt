-- ===== src/Protocol.antt =====
-- protocol/: the handoff protocol over a storage adapter and a journal.
pub mod Action
pub mod Paths
pub mod Classify
pub mod Players
pub mod Journal
pub mod ManifestAccess
pub mod Lock
pub mod Handoff
pub mod Initialize
pub mod Download
pub mod Temporary
