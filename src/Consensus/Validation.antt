-- ===== src/Consensus/Validation.antt =====
-- The validation of headers, transactions and blocks (crates/blq-consensus/src/lib.rs).
pub mod Sound
pub mod Blocks
use Prim.Native.Nat.{Ordering}
use blq_node.Base.{
  ℕ, ◌+◌, Bool, true, false, not, ◌&&◌, ◌||◌, ltb, leb, ◌==◌, if◌then◌else◌, List, [], ◌∷◌, Option,
  some, none, length, any, sum_of, u64_mod, add_u64, Result, ok, err, reject_if, map_err, ◌>>◌,
}
use blq_node.Base.Bytes.{bytes_eq, bytes_cmp}
use blq_node.Externals.{Externals}
use blq_node.Primitives.{
  Hash256, Bix, BlockHeader, Block, Transaction, header_hash, genesis_header, block_bytes,
  transactions_root, receipts_root, is_empty, mainnet_chain_id, max_block_bytes,
  max_transaction_payload_bytes, max_access_list_entries, max_access_list_storage_keys_per_entry,
  max_access_list_storage_keys,
}
use blq_node.Pow.{PowError, validate_pow_fields, blq_rx_hash}
use blq_node.Consensus.Fees.{next_base_fee_per_gas}

pub data ConsensusError : Type 0 where
  gas_used_exceeds_limit invalid_proof_of_work invalid_proof_of_work_fields : ConsensusError
  invalid_block_number invalid_timestamp invalid_parent_hash block_too_large : ConsensusError
  invalid_transactions_root invalid_receipts_root receipt_transaction_mismatch : ConsensusError
  invalid_transaction_chain_id max_fee_below_base_fee priority_fee_exceeds_max_fee : ConsensusError
  unsupported_transaction_type transaction_payload_too_large : ConsensusError
  access_list_too_large invalid_base_fee : ConsensusError

-- `hash.0 <= target.0`, on arrays.
unfoldable pub satisfies_pow : Hash256 → Hash256 → Bool
satisfies_pow hash target = elim (bytes_cmp hash target) [ Ordering.gt ↦ false | _ ↦ true ]

pub map_pow_error : PowError → ConsensusError
map_pow_error PowError.unsupported_algorithm = invalid_proof_of_work_fields
map_pow_error PowError.invalid_epoch = invalid_proof_of_work_fields
map_pow_error PowError.invalid_mix_hash = invalid_proof_of_work_fields

pub block_size_rule_active : ℕ → Option ℕ → Bool
block_size_rule_active height none = false
block_size_rule_active height (some activation) = leb activation height

pub validate_block_size : Block → Result (Unit {0}) ConsensusError
validate_block_size block =
    reject_if (ltb max_block_bytes (length (block_bytes block))) block_too_large

abbrev pub access_list_exceeds : Transaction → Bool
access_list_exceeds t =
    ltb max_access_list_entries (length t.access_list)
    || (any (λ item. ltb max_access_list_storage_keys_per_entry (length item.storage_keys))
          t.access_list
        || ltb max_access_list_storage_keys
            (sum_of (λ item. length item.storage_keys) t.access_list))

unfoldable pub validate_transaction_fee : Transaction → Bix → Result (Unit {0}) ConsensusError
validate_transaction_fee t base_fee_per_gas = do
  reject_if (not (t.chain_id == mainnet_chain_id)) invalid_transaction_chain_id
  reject_if
      (ltb 2 t.transaction_type || ((t.transaction_type == 0) && not (is_empty t.access_list)))
      unsupported_transaction_type
  reject_if (ltb max_transaction_payload_bytes (length t.payload)) transaction_payload_too_large
  reject_if (access_list_exceeds t) access_list_too_large
  reject_if (ltb t.max_fee_per_gas base_fee_per_gas) max_fee_below_base_fee
  reject_if (ltb t.max_fee_per_gas t.max_priority_fee_per_gas) priority_fee_exceeds_max_fee
  ok tt

-- The loop over the transactions of a block.
pub validate_transactions : List Transaction → Bix → Result (Unit {0}) ConsensusError
validate_transactions [] base_fee_per_gas = ok tt
validate_transactions (t ∷ ts) base_fee_per_gas = do
  validate_transaction_fee t base_fee_per_gas
  validate_transactions ts base_fee_per_gas

module _ ⦃env : Externals⦄ where
  pub validate_header_with_genesis :
      BlockHeader → BlockHeader → Hash256 → Result (Unit {0}) ConsensusError
  validate_header_with_genesis parent child genesis_hash = do
    reject_if (not (child.number == add_u64 parent.number 1)) invalid_block_number
    reject_if (leb child.timestamp_seconds parent.timestamp_seconds) invalid_timestamp
    reject_if (ltb child.gas_limit child.gas_used) gas_used_exceeds_limit
    map_err map_pow_error (validate_pow_fields child genesis_hash)
    reject_if
        (not (satisfies_pow (blq_rx_hash child genesis_hash).final_hash child.difficulty_target))
        invalid_proof_of_work
    ok tt

  pub validate_header : BlockHeader → BlockHeader → Result (Unit {0}) ConsensusError
  validate_header parent child =
      validate_header_with_genesis parent child (header_hash genesis_header)

  pub validate_block_with_genesis_and_activation :
      BlockHeader → Block → Hash256 → Option ℕ → Result (Unit {0}) ConsensusError
  validate_block_with_genesis_and_activation parent block genesis_hash activation_height = do
    validate_header_with_genesis parent block.header genesis_hash
    reject_if (not (bytes_eq block.header.parent_hash (header_hash parent))) invalid_parent_hash
    if block_size_rule_active block.header.number activation_height
        then validate_block_size block
        else ok tt
    reject_if (not (length block.transactions == length block.receipts))
        receipt_transaction_mismatch
    reject_if (not (bytes_eq block.header.transactions_root (transactions_root block.transactions)))
        invalid_transactions_root
    reject_if (not (bytes_eq block.header.receipts_root (receipts_root block.receipts)))
        invalid_receipts_root
    reject_if (not (block.header.base_fee_per_gas == next_base_fee_per_gas parent)) invalid_base_fee
    validate_transactions block.transactions block.header.base_fee_per_gas
    ok tt

  pub validate_block_with_genesis : BlockHeader → Block → Hash256 → Result (Unit {0}) ConsensusError
  validate_block_with_genesis parent block genesis_hash =
      validate_block_with_genesis_and_activation parent block genesis_hash (some 0)

  pub validate_block : BlockHeader → Block → Result (Unit {0}) ConsensusError
  validate_block parent block =
      validate_block_with_genesis parent block (header_hash genesis_header)
