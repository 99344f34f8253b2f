-- ===== src/Local/Detect.antt =====
-- local/detect.py: which saves of the player are outgoing candidates.
pub mod Types
pub mod Samples
pub mod Merge
pub mod Observe
pub mod New
pub mod Excluded
