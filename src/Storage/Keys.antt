-- ===== src/Storage/Keys.antt =====
-- crates/blq-storage/src/lib.rs: the keys of the store, and reading keys and values back.
pub mod Separation
use blq_node.Base.{
  ℕ, ◌%◌, ◌≡◌, Bool, true, false, not, ◌==◌, if◌then◌else◌, List, [], ◌∷◌, ◌++◌, Option, none, some,
  length, Result, ok, err, ◌>>=◌, map_err, u64_max,
}
use blq_node.Base.Bytes.{ascii, be_bytes, be_value}
use blq_node.Base.Prefixes.{strip_prefix, split_at_byte}
use blq_node.Base.Decimals.{padded}
use blq_node.Database.{Hex}
use blq_node.Primitives.{Hash256, Address}
use blq_node.Primitives.Hex.{HexHashError, hash_from_hex, address_from_hex}

-- The texts of the errors have no effect and are left out.
pub data StorageError : Type 0 where
  not_found : StorageError
  io : StorageError
  serialization : StorageError

-- `format!("block:number:{:020}", number)` and the like.
unfoldable pub block_key : ℕ → List ℕ
block_key number = ascii "block:number:" ++ padded 20 number

unfoldable pub header_key : ℕ → List ℕ
header_key number = ascii "header:number:" ++ padded 20 number

unfoldable pub evm_snapshot_key : ℕ → List ℕ
evm_snapshot_key number = ascii "state:evm:snapshot:" ++ padded 20 number

-- The 16 bytes of a log's place: two indices are cut to 32 bits.
pub log_index_bytes : ℕ → ℕ → ℕ → List ℕ
log_index_bytes block_number transaction_index log_index =
    be_bytes 8 block_number
    ++ (be_bytes 4 (transaction_index % 4_294_967_296) ++ be_bytes 4 (log_index % 4_294_967_296))

module _ ⦃hex : Hex⦄ where
  unfoldable pub transaction_key : Hash256 → List ℕ
  transaction_key hash = ascii "transaction:" ++ hex.encode hash

  unfoldable pub receipt_key : Hash256 → List ℕ
  receipt_key hash = ascii "receipt:" ++ hex.encode hash

  unfoldable pub orphan_key : Hash256 → List ℕ
  orphan_key hash = ascii "orphan:block:" ++ hex.encode hash

  unfoldable pub candidate_key : Hash256 → List ℕ
  candidate_key hash = ascii "candidate:block:" ++ hex.encode hash

  unfoldable pub candidate_work_key : Hash256 → List ℕ
  candidate_work_key hash = ascii "candidate:work:" ++ hex.encode hash

  unfoldable pub quarantine_key : Hash256 → List ℕ
  quarantine_key hash = ascii "candidate:quarantine:" ++ hex.encode hash

  unfoldable pub log_location_key : List ℕ → List ℕ
  log_location_key location = ascii "log:index:location:" ++ hex.encode location

  unfoldable pub log_address_prefix : Address → List ℕ
  log_address_prefix address = ascii "log:index:address:" ++ (hex.encode address ++ ascii ":")

  unfoldable pub log_address_key : Address → List ℕ → List ℕ
  log_address_key address location = log_address_prefix address ++ hex.encode location

  unfoldable pub log_topic_prefix : Hash256 → List ℕ
  log_topic_prefix topic = ascii "log:index:topic:" ++ (hex.encode topic ++ ascii ":")

  unfoldable pub log_topic_key : Hash256 → List ℕ → List ℕ
  log_topic_key topic location = log_topic_prefix topic ++ hex.encode location

  unfoldable pub balance_key : Address → List ℕ
  balance_key address = ascii "account:balance:" ++ hex.encode address

  unfoldable pub nonce_key : Address → List ℕ
  nonce_key address = ascii "account:nonce:" ++ hex.encode address

  unfoldable pub code_key : Address → List ℕ
  code_key address = ascii "account:code:" ++ hex.encode address

  unfoldable pub storage_key : Address → Hash256 → List ℕ
  storage_key address slot =
      ascii "account:storage:" ++ (hex.encode address ++ (58 ∷ hex.encode slot))

  -- `address_from_balance_key`, `address_from_nonce_key` and `address_from_code_key`, each with its
  -- prefix. A text that is no UTF-8 is no hexadecimal text either.
  pub address_from_key : List ℕ → List ℕ → Result Address StorageError
  address_from_key prefix key = elim (strip_prefix prefix key) [
    | none ↦ err serialization
    | some suffix ↦ map_err (λ e. serialization) (address_from_hex suffix)
  ]

  pub address_from_storage_key : List ℕ → Result (Address × Hash256) StorageError
  address_from_storage_key key = elim (strip_prefix (ascii "account:storage:") key) [
    | none ↦ err serialization
    | some suffix ↦ elim (split_at_byte 58 suffix) [
      | none ↦ err serialization
      | some parts ↦ map_err (λ e. serialization) (address_from_hex parts.0) >>= λ address.
          map_err (λ e. serialization) (hash_from_hex parts.1) >>= λ slot. ok (address, slot)
    ]
  ]

-- `try_into()` of a slice to an array of `size` bytes.
unfoldable pub array_from : ℕ → List ℕ → Result (List ℕ) StorageError
array_from size value = if length value == size then ok value else err serialization

-- An integer of `size` bytes: `u128_from_slice` at 16.
unfoldable pub int_from_slice : ℕ → List ℕ → Result ℕ StorageError
int_from_slice size value = array_from size value >>= λ bytes. ok (be_value bytes)
