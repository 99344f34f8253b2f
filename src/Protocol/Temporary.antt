-- ===== src/Protocol/Temporary.antt =====
-- protocol/cleanup.py: the removal of temporary objects that the caller names.
pub mod Candidates
pub mod Cleanup
pub mod Contained
pub mod Removal
pub mod Items
