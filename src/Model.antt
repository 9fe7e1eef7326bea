-- ===== src/Model.antt =====
-- pkg/model: the canonical representation that every format reads into and writes from.
pub mod Value
pub mod Schema
pub mod Table
pub mod Types
pub mod Diff
pub mod SyncMetadata
