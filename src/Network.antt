-- ===== src/Network.antt =====
-- crates/blq-network/src/lib.rs: the scores of peers, and the choice between branches.
pub mod Peers
pub mod Branches
