-- ===== src/Parquet.antt =====
-- pkg/formats/parquet: directories of Parquet files, which have no log.
pub mod Footer
pub mod Stats
pub mod Signature
pub mod Merge
pub mod Partitions
pub mod Crawled
pub mod Source
pub mod Target
