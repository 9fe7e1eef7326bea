-- ===== src/Delta.antt =====
-- pkg/formats/delta: reading a Delta Lake table.
pub mod Actions
pub mod Stats
pub mod Schema
pub mod Files
pub mod Checkpoint
pub mod Log
pub mod Source
pub mod Changes
pub mod Writer
pub mod Target
