-- ===== src/Lib.antt =====
-- A verification library for the BLQ node, a proof-of-work chain with EVM transactions.
--
-- The parts and how they work together. crates/blq-primitives holds the types of the chain, their
-- canonical bytes and the digests over these. crates/blq-pow computes the proof of work over a
-- header's bytes, and crates/blq-consensus decides which headers, transactions and blocks are
-- valid, what a block is paid, how a fee is split, and how the base fee and the difficulty target
-- move. crates/blq-miner builds templates of empty blocks and searches for a nonce with the proof
-- of work and the target test of consensus. crates/blq-mempool keeps the pending transactions,
-- which it lets in by the fee check of consensus. crates/blq-state moves value between accounts in
-- memory. crates/blq-storage keeps blocks, headers, indexes, accounts and waiting blocks in a
-- key-value store, with files beside it that say which chain it holds; the node replaces the chain
-- above an ancestor through it, in one batch between a journal and these files. crates/blq-network
-- scores peers and chooses between branches by their work.
-- crates/blq-node decodes the raw transactions that wallets send, before the mempool sees them.
--
-- Which module models what:
--   Base         the shared helpers: Boolean tests, lists, results, machine words, bytes, integers,
--                sorting, and maps as association lists
--   Externals    the code of other projects as records of operations and laws: the hash functions
--                and the RandomX library (Externals), the 256-bit integers (U256), and the digest
--                and the signatures of Ethereum (Signer)
--   Database     sled, the crate hex and the JSON of serde_json, as records of operations and of the
--                laws that the code relies on (Sled, Hex, Codec)
--   Primitives   crates/blq-primitives/src/lib.rs; a method canonical_bytes is transaction_bytes,
--                receipt_bytes, log_bytes, header_bytes or block_bytes, and a method hash is
--                transaction_hash or header_hash; Primitives.Rlp has the RLP encoding of EIP-1559
--                transactions, Primitives.Hex the hexadecimal texts
--   Pow          crates/blq-pow/src/lib.rs; both engines, native_randomx::hash as randomx_hash
--   Consensus    crates/blq-consensus/src/lib.rs: Target (arithmetic on targets), Retarget (the
--                controllers), Fees, Validation; a function keeps its name
--   Miner        crates/blq-miner/src/lib.rs; the search loop is try_nonces
--   Mempool      crates/blq-mempool/src/lib.rs: the pool and add, in Operations the other
--                operations, in Selection drain_for_block, in Persistence load and save
--   State        crates/blq-state/src/lib.rs
--   Network      crates/blq-network/src/lib.rs: Peers (PeerScoreBook) and Branches (BranchTip)
--   Storage      crates/blq-storage/src/lib.rs, SledStorage: Keys, Accounts (put_evm_account and the
--                totals), Blocks (insert_block and the batch of a block), Generation (the files, and
--                recover_suffix_publication), Publication (publish_canonical_suffix), Candidates
--                (orphans, candidates, latest_candidate_tip), Pruning, Roots and Snapshot
--                (account_snapshot and the roots over it); a method keeps its name
--   Node         crates/blq-node/src/main.rs: Rlp (the functions rlp_take_*) and Decode
--                (decode_eip1559_transaction and rlp_decode_access_list)
--   Samples      concrete data for the modules called Examples, which apply theorems to it
--
-- How state and failure are modelled. A method that takes &mut self is a function from the state to
-- the state, with its result beside it. A Result is Base's Result, or a sum of its own where a call
-- can panic; the decoder of raw transactions keeps no error texts and returns an Option. A HashMap
-- or BTreeMap is an association list. What the code reads from the clock is an argument. Hashes,
-- addresses and texts are lists of bytes; a machine integer is a number, and an operation that
-- wraps or saturates in a release build does so here. The store is any type with the laws of Sled,
-- and errors of the disk are left out, also in file writes, which take place whole (they are renamed
-- into place) or not at all. A crash in a publication is one of the states Interrupted. What
-- disk_usage_bytes reads is a function of the turn.
--
-- Bounds and fuel. next_power_of_two has 64 doublings, which reach every argument up to 2^64.
-- len_bytes has 8 turns, one for each byte of a usize. decode_keys and decode_entries have as many
-- turns as there are bytes, which are enough (Node.Decode.Turns). The search for a nonce recurses on
-- the number of nonces that are left, which the code's range fixes. All other loops run over a
-- list.
--
-- Not modelled: the JSON texts, the contents of directories, sockets and threads; in the storage the
-- recovery blocks, snapshot files, EVM snapshots, FileStorage and MemoryStorage; the EVM executor,
-- the RPC records, and the rest of the node's main program (other transaction types, sync, recovery);
-- the vendored library under vendor/.
pub mod Base
pub mod Externals
pub mod Database
pub mod Primitives
pub mod Consensus
pub mod Pow
pub mod Miner
pub mod Mempool
pub mod State
pub mod Network
pub mod Samples
pub mod Node
pub mod Storage
