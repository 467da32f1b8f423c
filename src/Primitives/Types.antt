-- ===== src/Primitives/Types.antt =====
-- The data types of crates/blq-primitives/src/lib.rs. A hash, an address and a text are their
-- bytes; a `Bix`, a `BlockNumber` and a machine integer are numbers.
use blq_node.Base.{ℕ, ◌≡◌, ◌<◌, Bool, List, Option, length, u64_mod, u128_mod}
use blq_node.Base.Bytes.{IsBytes}
use blq_node.Externals.{IsHash}

abbrev pub Hash256 : Type 0
Hash256 = List ℕ

abbrev pub Address : Type 0
Address = List ℕ

abbrev pub IsAddress : Address → Type 0
IsAddress a = (length a ≡ 20) × IsBytes a

abbrev pub Bix : Type 0
Bix = ℕ

pub record TransactionAccessListItem : Type 0 where
  pub address : Address
  pub storage_keys : List Hash256

pub record TransactionSignature : Type 0 where
  pub y_parity : Bool
  pub r : Hash256
  pub s : Hash256

pub record Transaction : Type 0 where
  pub chain_id : ℕ
  pub transaction_type : ℕ
  pub nonce : ℕ
  pub from : Address
  pub to : Option Address
  pub value : Bix
  pub gas_limit : ℕ
  pub max_fee_per_gas : Bix
  pub max_priority_fee_per_gas : Bix
  pub payload : List ℕ
  pub access_list : List TransactionAccessListItem
  pub signature : Option TransactionSignature
  pub external_hash : Option Hash256

pub record LogEntry : Type 0 where
  pub address : Address
  pub topics : List Hash256
  -- `data`
  pub log_data : List ℕ

pub record Receipt : Type 0 where
  pub transaction_hash : Hash256
  pub success : Bool
  pub gas_used : ℕ
  pub logs_root : Hash256
  pub logs : List LogEntry

pub record BlockHeader : Type 0 where
  pub parent_hash : Hash256
  pub number : ℕ
  pub state_root : Hash256
  pub transactions_root : Hash256
  pub receipts_root : Hash256
  pub beneficiary : Hash256
  pub difficulty_target : Hash256
  pub base_fee_per_gas : Bix
  pub gas_limit : ℕ
  pub gas_used : ℕ
  pub timestamp_seconds : ℕ
  pub pow_algorithm : List ℕ
  pub pow_epoch : ℕ
  pub extra_nonce : ℕ
  pub mix_hash : Hash256
  pub nonce : ℕ

pub record Block : Type 0 where
  pub header : BlockHeader
  pub transactions : List Transaction
  pub receipts : List Receipt

-- The ranges that the field types of `BlockHeader` give.
pub record IsHeader (h : BlockHeader) : Type 0 where
  pub parent_hash : IsHash h.parent_hash
  pub number : h.number < u64_mod
  pub state_root : IsHash h.state_root
  pub transactions_root : IsHash h.transactions_root
  pub receipts_root : IsHash h.receipts_root
  pub beneficiary : IsHash h.beneficiary
  pub difficulty_target : IsHash h.difficulty_target
  pub base_fee_per_gas : h.base_fee_per_gas < u128_mod
  pub gas_limit : h.gas_limit < u64_mod
  pub gas_used : h.gas_used < u64_mod
  pub timestamp_seconds : h.timestamp_seconds < u64_mod
  pub pow_algorithm : length h.pow_algorithm < u64_mod
  pub pow_epoch : h.pow_epoch < u64_mod
  pub extra_nonce : h.extra_nonce < u64_mod
  pub mix_hash : IsHash h.mix_hash
  pub nonce : h.nonce < u64_mod
