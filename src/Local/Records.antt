-- ===== src/Local/Records.antt =====
-- local/records.py: the durable records of a match.
pub mod Types
pub mod Mappings
pub mod Reading
pub mod Members
pub mod Whole
pub mod MemberRoundTrip
pub mod MemberLaws
pub mod RoundTrip
pub mod Json
