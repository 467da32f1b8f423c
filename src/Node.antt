-- ===== src/Node.antt =====
-- crates/blq-node/src/main.rs: the decoding of raw transactions.
pub mod Rlp
pub mod Decode
mod Examples
