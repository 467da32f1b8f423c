-- ===== src/Primitives/Encoding.antt =====
-- Canonical bytes and digests. A `put_*` of the source appends to `out`; here it is what it
-- appends, and the appends are joined by `++`.
pub mod Roots
mod Examples
pub mod Lengths
pub mod Injective
pub mod Fields
use blq_node.Base.{
  ℕ, ◌%◌, Bool, true, false, List, [], ◌∷◌, ◌++◌, Option, none, some, length, map, ◌||◌, not, ◌==◌,
  if◌then◌else◌, u64_mod, concat, drop, replicate,
}
use blq_node.Base.Bytes.{be_bytes}
use blq_node.Externals.{Externals}
use blq_node.Primitives.Constants.{
  hash_zero, genesis_difficulty_target, initial_base_fee_per_gas_bix, genesis_gas_limit,
  genesis_timestamp_seconds, default_pow_algorithm,
}
use blq_node.Primitives.Types.{
  Hash256, Address, Transaction, TransactionAccessListItem, TransactionSignature, LogEntry, Receipt,
  BlockHeader, Block,
}

abbrev pub is_empty {ℓ} : {A : Type ℓ} → List A → Bool
is_empty [] = true
is_empty (x ∷ xs) = false

abbrev pub u8_from : Bool → ℕ
u8_from b = if b then 1 else 0

pub put_u64 : ℕ → List ℕ
put_u64 value = be_bytes 8 value

pub put_u128 : ℕ → List ℕ
put_u128 value = be_bytes 16 value

pub put_bytes : List ℕ → List ℕ
put_bytes bytes = put_u64 (length bytes % u64_mod) ++ bytes

-- `Address::to_word` and `Address::from_word`.
pub to_word : Address → Hash256
to_word address = replicate 12 0 ++ address

pub from_word : Hash256 → Address
from_word word = drop 12 word

pub put_storage_keys : List Hash256 → List ℕ
put_storage_keys keys = concat keys

pub put_access_list : List TransactionAccessListItem → List ℕ
put_access_list [] = []
put_access_list (item ∷ items) =
    item.address
    ++ (put_u64 (length item.storage_keys % u64_mod)
        ++ (put_storage_keys item.storage_keys ++ put_access_list items))

pub put_recipient : Option Address → List ℕ
put_recipient (some to) = 1 ∷ to
put_recipient none = 0 ∷ []

pub put_signature : Option TransactionSignature → List ℕ
put_signature (some signature) = 1 ∷ u8_from signature.y_parity ∷ (signature.r ++ signature.s)
put_signature none = 0 ∷ []

-- The section that only typed transactions carry.
pub put_typed_section : Transaction → List ℕ
put_typed_section t =
    if not (is_empty t.access_list) || (t.transaction_type == 1)
    then 0xa5
      ∷ t.transaction_type
      ∷ (put_u64 (length t.access_list % u64_mod) ++ put_access_list t.access_list)
    else []

-- `Transaction::canonical_bytes`.
pub transaction_bytes : Transaction → List ℕ
transaction_bytes t =
    put_u64 t.chain_id
    ++ (put_u64 t.nonce
        ++ (t.from
            ++ (put_recipient t.to
                ++ (put_u128 t.value
                    ++ (put_u64 t.gas_limit
                        ++ (put_u128 t.max_fee_per_gas
                            ++ (put_u128 t.max_priority_fee_per_gas
                                ++ (put_bytes t.payload
                                    ++ (put_typed_section t ++ put_signature t.signature)))))))))

-- `LogEntry::canonical_bytes`.
pub log_bytes : LogEntry → List ℕ
log_bytes log =
    log.address
    ++ (put_u64 (length log.topics % u64_mod) ++ (concat log.topics ++ put_bytes log.log_data))

pub put_logs : List LogEntry → List ℕ
put_logs [] = []
put_logs (log ∷ logs) = put_bytes (log_bytes log) ++ put_logs logs

-- `Receipt::canonical_bytes`.
pub receipt_bytes : Receipt → List ℕ
receipt_bytes receipt =
    receipt.transaction_hash
    ++ (u8_from receipt.success
        ∷ (put_u64 receipt.gas_used
            ++ (receipt.logs_root
                ++ (if is_empty receipt.logs
                    then []
                    else put_u64 (length receipt.logs % u64_mod) ++ put_logs receipt.logs))))

-- The fields that both encodings of a header begin with.
pub header_prefix : BlockHeader → List ℕ
header_prefix h =
    h.parent_hash
    ++ (put_u64 h.number
        ++ (h.state_root
            ++ (h.transactions_root
                ++ (h.receipts_root
                    ++ (h.beneficiary
                        ++ (h.difficulty_target
                            ++ (put_u128 h.base_fee_per_gas
                                ++ (put_u64 h.gas_limit
                                    ++ (put_u64 h.gas_used
                                        ++ (put_u64 h.timestamp_seconds
                                            ++ (put_bytes h.pow_algorithm
                                                ++ (put_u64 h.pow_epoch
                                                    ++ put_u64 h.extra_nonce))))))))))))

-- `BlockHeader::canonical_bytes`.
pub header_bytes : BlockHeader → List ℕ
header_bytes h = header_prefix h ++ (h.mix_hash ++ put_u64 h.nonce)

-- `BlockHeader::pow_preimage_bytes`: all fields but the mix hash.
pub pow_preimage_bytes : BlockHeader → List ℕ
pow_preimage_bytes h = header_prefix h ++ put_u64 h.nonce

pub put_transactions : List Transaction → List ℕ
put_transactions [] = []
put_transactions (t ∷ ts) = put_bytes (transaction_bytes t) ++ put_transactions ts

pub put_receipts : List Receipt → List ℕ
put_receipts [] = []
put_receipts (r ∷ rs) = put_bytes (receipt_bytes r) ++ put_receipts rs

-- `Block::canonical_bytes`.
pub block_bytes : Block → List ℕ
block_bytes b =
    header_bytes b.header
    ++ (put_u64 (length b.transactions % u64_mod)
        ++ (put_transactions b.transactions
            ++ (put_u64 (length b.receipts % u64_mod) ++ put_receipts b.receipts)))

-- What `merkle_like_root` feeds its hasher: each item behind its length, and then their number.
pub root_items : List (List ℕ) → List ℕ
root_items [] = []
root_items (item ∷ items) = put_u64 (length item % u64_mod) ++ (item ++ root_items items)

pub root_preimage : List (List ℕ) → List ℕ
root_preimage items = root_items items ++ put_u64 (length items % u64_mod)

module _ ⦃env : Externals⦄ where
  pub hash_bytes : List ℕ → Hash256
  hash_bytes bytes = env.sha256 bytes

  pub merkle_like_root : List (List ℕ) → Hash256
  merkle_like_root items = if is_empty items then hash_zero else env.sha256 (root_preimage items)

  pub transactions_root : List Transaction → Hash256
  transactions_root ts = merkle_like_root (map transaction_bytes ts)

  pub receipts_root : List Receipt → Hash256
  receipts_root rs = merkle_like_root (map receipt_bytes rs)

  pub logs_root : List LogEntry → Hash256
  logs_root logs = if is_empty logs then hash_zero else merkle_like_root (map log_bytes logs)

  -- `BlockHeader::hash`.
  pub header_hash : BlockHeader → Hash256
  header_hash h = hash_bytes (header_bytes h)

  -- `Transaction::hash`.
  pub transaction_hash : Transaction → Hash256
  transaction_hash t = hash_bytes (transaction_bytes t)

  unfoldable pub rpc_hash : Transaction → Hash256
  rpc_hash t = elim t.external_hash [ some h ↦ h | none ↦ transaction_hash t ]

  pub genesis_header : BlockHeader
  genesis_header = record {
    parent_hash = hash_zero;
    number = 0;
    state_root = hash_zero;
    transactions_root = hash_zero;
    receipts_root = hash_zero;
    beneficiary = hash_zero;
    difficulty_target = genesis_difficulty_target;
    base_fee_per_gas = initial_base_fee_per_gas_bix;
    gas_limit = genesis_gas_limit;
    gas_used = 0;
    timestamp_seconds = genesis_timestamp_seconds;
    pow_algorithm = default_pow_algorithm env.native_randomx;
    pow_epoch = 0;
    extra_nonce = 0;
    mix_hash = hash_zero;
    nonce = 0;
  }

  pub genesis_block : Block
  genesis_block = record { header = genesis_header; transactions = []; receipts = [] }
