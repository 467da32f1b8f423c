-- ===== src/Storage.antt =====
-- crates/blq-storage/src/lib.rs: the chain's data in a key-value store.
pub mod Keys
pub mod Accounts
pub mod Blocks
pub mod Generation
pub mod Publication
pub mod Candidates
pub mod Pruning
pub mod Roots
pub mod Snapshot
mod Examples
