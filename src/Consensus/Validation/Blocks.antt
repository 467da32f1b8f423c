-- ===== src/Consensus/Validation/Blocks.antt =====
-- A block is accepted exactly when it fits its parent, its digests and its transactions.
use blq_node.Base.{ℕ, ◌≤◌, ◌<◌, ◌≡◌, ◌↔◌, Option, some, none, arith, length, All, u64_max, ok}
use blq_node.Base.Bytes.{bytes_eq_iff}
use blq_node.Externals.{Externals, IsHash}
use blq_node.Primitives.{
  Hash256, BlockHeader, Block, header_hash, block_bytes, transactions_root, receipts_root,
}
use blq_node.Consensus.Fees.{next_base_fee_per_gas}
use blq_node.Consensus.Validation.{
  validate_header_with_genesis, validate_transactions, validate_block_size, block_size_rule_active,
  validate_block_with_genesis_and_activation,
}
use blq_node.Consensus.Validation.Sound.{
  IsAcceptable, IsChild, validate_header-IsChild, validate_transactions-All,
}

-- The height from which blocks are held to 2 MiB.
abbrev pub SizeRule : Block → Option ℕ → Type 0
SizeRule b none = Unit
SizeRule b (some activation) = activation ≤ b.header.number → length (block_bytes b) ≤ 2_097_152

module _ ⦃env : Externals⦄ where
  pub record IsValidBlock (parent : BlockHeader) (b : Block) (genesis_hash : Hash256)
      (activation : Option ℕ) : Type 0 where
    pub child : IsChild parent b.header genesis_hash
    pub parent_hash : b.header.parent_hash ≡ header_hash parent
    pub size : SizeRule b activation
    pub paired : length b.transactions ≡ length b.receipts
    pub transactions_root : b.header.transactions_root ≡ transactions_root b.transactions
    pub receipts_root : b.header.receipts_root ≡ receipts_root b.receipts
    pub base_fee : b.header.base_fee_per_gas ≡ next_base_fee_per_gas parent
    pub transactions : All (λ t. IsAcceptable t b.header.base_fee_per_gas) b.transactions

  -- The checks as they are written, each of them passed.
  checks_passed :
      (parent : BlockHeader) (b : Block) (g : Hash256) (activation : Option ℕ)
      → (validate_block_with_genesis_and_activation parent b g activation ≡ ok tt)
        ↔ (validate_header_with_genesis parent b.header g ≡ ok tt)
          × (b.header.parent_hash ≡ header_hash parent)
          × SizeRule b activation
          × (length b.transactions ≡ length b.receipts)
          × (b.header.transactions_root ≡ transactions_root b.transactions)
          × (b.header.receipts_root ≡ receipts_root b.receipts)
          × (b.header.base_fee_per_gas ≡ next_base_fee_per_gas parent)
          × (validate_transactions b.transactions b.header.base_fee_per_gas ≡ ok tt)
  unfolding validate_block_with_genesis_and_activation validate_block_size block_size_rule_active
  checks_passed parent b g none = ground (
    arith,
    bytes_eq_iff b.header.parent_hash (header_hash parent),
    bytes_eq_iff b.header.transactions_root (transactions_root b.transactions),
    bytes_eq_iff b.header.receipts_root (receipts_root b.receipts),
  )
  checks_passed parent b g (some activation) = ground (
    arith,
    bytes_eq_iff b.header.parent_hash (header_hash parent),
    bytes_eq_iff b.header.transactions_root (transactions_root b.transactions),
    bytes_eq_iff b.header.receipts_root (receipts_root b.receipts),
  )

  -- Where the parent is not the last block number and the target is a digest, a block passes
  -- validation exactly if it is a valid block on its parent: its header is a child of the parent
  -- with the work that it claims, the size rule is kept, every transaction has a receipt, both
  -- roots are those of the body, the base fee is the one due, and each transaction is acceptable.
  pub validate_block-IsValidBlock :
      (parent : BlockHeader) (b : Block) (g : Hash256) (activation : Option ℕ)
      → parent.number < u64_max
      → IsHash b.header.difficulty_target
      → (validate_block_with_genesis_and_activation parent b g activation ≡ ok tt)
        ↔ IsValidBlock parent b g activation
  validate_block-IsValidBlock parent b g activation last target =
      let (read, build) = checks_passed parent b g activation in
      let (child_of, child_is) = validate_header-IsChild parent b.header g last target in
      let (each, all) = validate_transactions-All b.transactions b.header.base_fee_per_gas in
      (
        (λ h.
            let (header, parent_ok, size, paired, txs, rs, fee, ts) = read h in
            record {
              child = child_of header;
              parent_hash = parent_ok;
              size = size;
              paired = paired;
              transactions_root = txs;
              receipts_root = rs;
              base_fee = fee;
              transactions = each ts;
            }),
        (λ v. build (
          child_is v.child,
          v.parent_hash,
          v.size,
          v.paired,
          v.transactions_root,
          v.receipts_root,
          v.base_fee,
          all v.transactions,
        )),
      )
