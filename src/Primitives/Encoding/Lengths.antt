-- ===== src/Primitives/Encoding/Lengths.antt =====
-- The sizes of the encodings.
use blq_node.Base.{◌+◌, ◌≡◌, arith, length, length-append, List, ℕ, []}
use blq_node.Base.Bytes.{length-be_bytes}
use blq_node.Primitives.Types.{BlockHeader}
use blq_node.Primitives.Encoding.{
  put_u64, put_u128, put_bytes, header_prefix, header_bytes, block_bytes, put_transactions,
  put_receipts,
}

pub length-put_u64 : (v : ℕ) → length (put_u64 v) ≡ 8
unfolding put_u64
length-put_u64 v = length-be_bytes 8 v

pub length-put_u128 : (v : ℕ) → length (put_u128 v) ≡ 16
unfolding put_u128
length-put_u128 v = length-be_bytes 16 v

pub length-put_bytes : (bs : List ℕ) → length (put_bytes bs) ≡ 8 + length bs
unfolding put_bytes
length-put_bytes bs = omega (arith, length-append {0}, length-put_u64)

ruleset lengths = (length-append, length-put_u64, length-put_u128, length-put_bytes)

-- The digests of a header have 32 bytes.
pub record HasDigests (h : BlockHeader) : Type 0 where
  pub parent_hash : length h.parent_hash ≡ 32
  pub state_root : length h.state_root ≡ 32
  pub transactions_root : length h.transactions_root ≡ 32
  pub receipts_root : length h.receipts_root ≡ 32
  pub beneficiary : length h.beneficiary ≡ 32
  pub difficulty_target : length h.difficulty_target ≡ 32
  pub mix_hash : length h.mix_hash ≡ 32

-- A header takes 304 bytes and the name of its algorithm.
pub length-header_bytes :
    (h : BlockHeader) → HasDigests h → length (header_bytes h) ≡ 304 + length h.pow_algorithm
unfolding header_bytes header_prefix
length-header_bytes h v = simp lengths (omega arith)

pub length-empty_block :
    (h : BlockHeader)
    → HasDigests h
    → length (block_bytes (record { header = h; transactions = []; receipts = [] }))
      ≡ 320 + length h.pow_algorithm
unfolding block_bytes put_transactions put_receipts
length-empty_block h v = simp lengths (omega (arith, length-header_bytes h v))
