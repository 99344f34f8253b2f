-- ===== src/Process.antt =====
-- process/: the launch of Civilization.
pub mod Guard
