-- ===== src/Examples.antt =====
-- The development at concrete inputs: listings, catalogs and a small Delta log.
mod Texts
mod Listings
mod Partitions
mod Commits
mod Logs
mod Syncs
mod Markers
mod Watermarks
mod Jobs
mod Configs
mod Writes
mod Memories
mod Paimons
mod Hudis
mod Parquets
