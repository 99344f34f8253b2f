-- ===== src/Tests.antt =====
-- Concrete inputs, and what the theorems say at them.
pub mod Codec
pub mod Inputs
pub mod Witnesses
pub mod RemoteWitnesses
pub mod LocalWitnesses
