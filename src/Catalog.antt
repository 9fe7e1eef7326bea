-- ===== src/Catalog.antt =====
-- pkg/catalog: the external catalogs that a synced table is registered in.
pub mod Partition
pub mod Sync
pub mod FromSnapshot
pub mod Properties
