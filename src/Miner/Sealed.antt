-- ===== src/Miner/Sealed.antt =====
-- What the miner seals, consensus accepts.
use blq_node.Base.{
  ℕ, ◌≤◌, ◌<◌, ◌≡◌, refl, sym, ap, ok, arith, length, Option, some, none, true, u64_max,
}
use blq_node.Externals.{Externals, IsHash}
use blq_node.Primitives.{Hash256, BlockHeader, Block, IsHeader, block_bytes}
use blq_node.Primitives.Encoding.Lengths.{HasDigests, length-empty_block}
use blq_node.Primitives.Encoding.Roots.{
  header_hash-IsHash, transactions_root-nil, receipts_root-nil,
}
use mathlib.Core.Path.{subst}
use blq_node.Base.Bytes.{be_value}
use blq_node.Pow.{PowResult, blq_rx_hash}
use blq_node.Pow.Preimage.{
  blq_rx_hash-mix_hash, final_hash-IsHash, mix_hash-IsHash, length-pow_algorithm,
}
use blq_node.Consensus.Validation.{validate_block_with_genesis_and_activation}
use blq_node.Consensus.Validation.Sound.{satisfies_pow-le}
use blq_node.Consensus.Validation.Blocks.{IsValidBlock, SizeRule, validate_block-IsValidBlock}
use blq_node.Miner.{
  BlockTemplate, into_unsealed_block, empty_header, build_empty_template_with_genesis, with_nonce,
  nonce_wins, seal_empty_template_with_genesis,
}
use blq_node.Miner.Search.{seal_found}

module _ ⦃env : Externals⦄ where
  -- the block of a template with a nonce
  abbrev candidate : BlockHeader → Hash256 → ℕ → Hash256 → ℕ → Block
  candidate parent beneficiary timestamp g n =
      into_unsealed_block
        (with_nonce (build_empty_template_with_genesis parent beneficiary timestamp g) n g)

  candidate-HasDigests :
      (parent : BlockHeader) (beneficiary : Hash256) (timestamp : ℕ) (g : Hash256) (n : ℕ)
      → IsHeader parent
      → IsHash beneficiary
      → HasDigests (candidate parent beneficiary timestamp g n).header
  unfolding into_unsealed_block with_nonce build_empty_template_with_genesis
  candidate-HasDigests parent beneficiary timestamp g n h hb = record {
    parent_hash = (header_hash-IsHash parent).0;
    state_root = h.state_root.0;
    transactions_root = rw transactions_root-nil refl;
    receipts_root = rw receipts_root-nil refl;
    beneficiary = hb.0;
    difficulty_target = h.difficulty_target.0;
    mix_hash = (mix_hash-IsHash _ g).0;
  }

  candidate_algorithm :
      (parent : BlockHeader) (beneficiary : Hash256) (timestamp : ℕ) (g : Hash256) (n : ℕ)
      → length (candidate parent beneficiary timestamp g n).header.pow_algorithm ≡ 8
  unfolding into_unsealed_block with_nonce build_empty_template_with_genesis
  candidate_algorithm parent beneficiary timestamp g n = length-pow_algorithm

  candidate_target :
      (parent : BlockHeader) (beneficiary : Hash256) (timestamp : ℕ) (g : Hash256) (n : ℕ)
      → IsHeader parent
      → IsHash (candidate parent beneficiary timestamp g n).header.difficulty_target
  unfolding into_unsealed_block with_nonce build_empty_template_with_genesis
  candidate_target parent beneficiary timestamp g n h = h.difficulty_target

  candidate_size :
      (parent : BlockHeader) (beneficiary : Hash256) (timestamp : ℕ) (g : Hash256) (n : ℕ)
      → IsHeader parent
      → IsHash beneficiary
      → length (block_bytes (candidate parent beneficiary timestamp g n)) ≡ 328
  unfolding into_unsealed_block with_nonce build_empty_template_with_genesis
  candidate_size parent beneficiary timestamp g n h hb =
      let b = candidate parent beneficiary timestamp g n in
      let algorithm : length b.header.pow_algorithm ≡ 8 =
        candidate_algorithm parent beneficiary timestamp g n in
      let digests = candidate-HasDigests parent beneficiary timestamp g n h hb in
      omega (arith, length-empty_block b.header digests, algorithm)

  size_rule :
      (b : Block) (activation : Option ℕ)
      → length (block_bytes b) ≤ 2_097_152
      → SizeRule b activation
  size_rule b none h = tt
  size_rule b (some a) h = λ _. h

  candidate-IsValidBlock :
      (parent : BlockHeader) (beneficiary : Hash256) (timestamp : ℕ) (g : Hash256) (n : ℕ)
      (activation : Option ℕ)
      → IsHeader parent
      → IsHash beneficiary
      → parent.number < u64_max
      → parent.timestamp_seconds < timestamp
      → nonce_wins (build_empty_template_with_genesis parent beneficiary timestamp g) n g ≡ true
      → IsValidBlock parent (candidate parent beneficiary timestamp g n) g activation
  unfolding into_unsealed_block with_nonce build_empty_template_with_genesis nonce_wins
  candidate-IsValidBlock parent beneficiary timestamp g n activation h hb last later win =
      let base = record (empty_header parent beneficiary timestamp) { nonce = n } in
      let same = blq_rx_hash-mix_hash base g (blq_rx_hash base g).mix_hash in
      let met =
        (satisfies_pow-le (blq_rx_hash base g).final_hash parent.difficulty_target
            (final_hash-IsHash base g) h.difficulty_target).0
          win in
      record {
        child = record {
          number = omega arith;
          timestamp = later;
          gas = omega arith;
          pow_fields = record {
            algorithm = refl;
            epoch = refl;
            mix = ap (λ (r : PowResult). r.mix_hash) (sym same);
          };
          work =
              subst (λ (r : PowResult). be_value r.final_hash ≤ be_value parent.difficulty_target)
                (sym same) met;
        };
        parent_hash = refl;
        size =
            size_rule _ activation
              (omega (arith, candidate_size parent beneficiary timestamp g n h hb));
        paired = refl;
        transactions_root = refl;
        receipts_root = refl;
        base_fee = refl;
        transactions = tt;
      }

  -- A template that was built on a parent whose fields are in range, and then sealed, is a block
  -- that consensus accepts as the child of that parent, under the size rule from any height on, if
  -- its timestamp is later than the parent's and the parent is not the last block number.
  pub sealed_block_accepted :
      (parent : BlockHeader) (beneficiary : Hash256) (timestamp : ℕ) (g : Hash256) (start limit : ℕ)
      (activation : Option ℕ) {sealed : BlockTemplate}
      → IsHeader parent
      → IsHash beneficiary
      → parent.number < u64_max
      → parent.timestamp_seconds < timestamp
      → seal_empty_template_with_genesis
          (build_empty_template_with_genesis parent beneficiary timestamp g)
          start
          limit
          g
        ≡ some sealed
      → validate_block_with_genesis_and_activation parent (into_unsealed_block sealed) g activation
        ≡ ok tt
  sealed_block_accepted parent beneficiary timestamp g start limit activation {sealed} h hb last
        later e =
      let t = build_empty_template_with_genesis parent beneficiary timestamp g in
      let (n, lo, hi, same, win, first) = seal_found t start limit g e in
      rw same (
        (validate_block-IsValidBlock parent (candidate parent beneficiary timestamp g n) g
            activation last (candidate_target parent beneficiary timestamp g n h)).1
          (candidate-IsValidBlock parent beneficiary timestamp g n activation h hb last later win))
