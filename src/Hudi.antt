-- ===== src/Hudi.antt =====
-- pkg/formats/hudi: Apache Hudi tables of version 6 and below, as a source and as a target.
pub mod Properties
pub mod Avro
pub mod Timeline
pub mod Active
pub mod Source
pub mod Target
