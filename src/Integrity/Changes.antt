-- ===== src/Integrity/Changes.antt =====
-- The ways in which the handlers change the tables, each with what it keeps of `IsValid`.
pub mod Lookups
pub mod Opens
pub mod Updates
pub mod Notes
