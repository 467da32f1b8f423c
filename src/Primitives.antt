-- ===== src/Primitives.antt =====
-- crates/blq-primitives/src/lib.rs: constants, the data types of the chain, their canonical bytes
-- and the digests over these.
mod Constants
mod Types
pub mod Encoding
pub mod Rlp
pub mod Hex
pub use Constants.*
pub use Types.*
pub use Encoding.*
