-- ===== src/Domain.antt =====
-- domain/: the validated values that the protocol exchanges.
pub mod Paths
pub mod Json
pub mod Libraries
pub mod Serialization
pub mod Ids
pub mod Manifest
pub mod Config
