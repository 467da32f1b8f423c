-- ===== src/Consensus.antt =====
-- crates/blq-consensus/src/lib.rs: fees and issuance, the difficulty controllers and their
-- arithmetic on 32-byte targets, and the validation of headers, transactions and blocks.
pub mod Target
pub mod Retarget
pub mod Fees
pub mod Validation
mod Examples
