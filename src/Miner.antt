-- ===== src/Miner.antt =====
-- crates/blq-miner/src/lib.rs: templates of empty blocks, and the search for a nonce.
pub mod Search
pub mod Sealed
mod Examples
use blq_node.Base.{
  ℕ, zero, suc, ◌+◌, ◌-◌, List, [], Option, some, none, Bool, true, false, add_u64,
  saturating_add_u64, Result, ok, err,
}
use blq_node.Externals.{Externals}
use blq_node.Primitives.{
  Hash256, BlockHeader, Block, Transaction, header_hash, transactions_root, receipts_root,
  hash_zero, genesis_header,
}
use blq_node.Pow.{pow_algorithm, epoch_for_height, epoch_seed, blq_rx_hash}
use blq_node.Consensus.Fees.{next_base_fee_per_gas}
use blq_node.Consensus.Validation.{satisfies_pow}

pub record BlockTemplate : Type 0 where
  pub header : BlockHeader
  pub transactions : List Transaction
  pub target : Hash256
  pub pow_algorithm : List ℕ
  pub pow_epoch : ℕ
  pub epoch_seed : Hash256

pub into_unsealed_block : BlockTemplate → Block
into_unsealed_block t = record { header = t.header; transactions = t.transactions; receipts = [] }

module _ ⦃env : Externals⦄ where
  pub empty_header : BlockHeader → Hash256 → ℕ → BlockHeader
  empty_header parent beneficiary timestamp_seconds = record {
    parent_hash = header_hash parent;
    number = add_u64 parent.number 1;
    state_root = parent.state_root;
    transactions_root = transactions_root [];
    receipts_root = receipts_root [];
    beneficiary = beneficiary;
    difficulty_target = parent.difficulty_target;
    base_fee_per_gas = next_base_fee_per_gas parent;
    gas_limit = parent.gas_limit;
    gas_used = 0;
    timestamp_seconds = timestamp_seconds;
    pow_algorithm = pow_algorithm;
    pow_epoch = epoch_for_height (add_u64 parent.number 1);
    extra_nonce = 0;
    mix_hash = hash_zero;
    nonce = 0;
  }

  pub build_empty_template_with_genesis : BlockHeader → Hash256 → ℕ → Hash256 → BlockTemplate
  unfolding empty_header
  build_empty_template_with_genesis parent beneficiary timestamp_seconds genesis_hash =
      let header = empty_header parent beneficiary timestamp_seconds in
      record {
        header = header;
        transactions = [];
        target = header.difficulty_target;
        pow_algorithm = pow_algorithm;
        pow_epoch = header.pow_epoch;
        epoch_seed = epoch_seed header.pow_epoch genesis_hash;
      }

  -- The template with a nonce, and the mix hash that belongs to it.
  pub with_nonce : BlockTemplate → ℕ → Hash256 → BlockTemplate
  with_nonce t nonce g =
      let header = record (t.header) { nonce = nonce } in
      record t { header = record header { mix_hash = (blq_rx_hash header g).mix_hash } }

  pub nonce_wins : BlockTemplate → ℕ → Hash256 → Bool
  nonce_wins t nonce g =
      satisfies_pow (blq_rx_hash (record (t.header) { nonce = nonce }) g).final_hash t.target

  -- The `for` loop, over the nonces that are left. It hands the mutated template on.
  pub try_nonces : ℕ → ℕ → BlockTemplate → Hash256 → Option BlockTemplate
  try_nonces zero nonce t g = none
  try_nonces (suc left) nonce t g =
      let sealed = with_nonce t nonce g in
      elim (nonce_wins t nonce g) [
        | true ↦ some sealed
        | false ↦ try_nonces left (nonce + 1) sealed g
      ]

  pub seal_empty_template_with_genesis : BlockTemplate → ℕ → ℕ → Hash256 → Option BlockTemplate
  seal_empty_template_with_genesis t nonce_start nonce_limit g =
      try_nonces (saturating_add_u64 nonce_start nonce_limit - nonce_start) nonce_start t g

  pub build_empty_template : BlockHeader → Hash256 → ℕ → BlockTemplate
  build_empty_template parent beneficiary timestamp_seconds =
      build_empty_template_with_genesis parent beneficiary timestamp_seconds
        (header_hash genesis_header)

  pub seal_empty_template : BlockTemplate → ℕ → ℕ → Option BlockTemplate
  seal_empty_template t nonce_start nonce_limit =
      seal_empty_template_with_genesis t nonce_start nonce_limit (header_hash genesis_header)

pub data MinerError : Type 0 where
  disabled : MinerError

pub start_miner : Result (Unit {0}) MinerError
start_miner = err disabled
