-- ===== src/Paimon.antt =====
-- pkg/formats/paimon: Apache Paimon tables, as a source and as a target.
pub mod Types
pub mod Parser
pub mod Manifest
pub mod Source
pub mod Writer
pub mod Target
