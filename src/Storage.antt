-- ===== src/Storage.antt =====
-- storage/: the port, the in-memory adapter and the comparison helpers.
pub mod Port
pub mod Faults
pub mod Snapshot
pub mod Laws
pub mod Verification
pub mod Fake
