-- ===== src/Storage/Blocks.antt =====
-- crates/blq-storage/src/lib.rs: canonical blocks and headers, and the indexes by hash.
pub mod Indexes
pub mod Insert
use blq_node.Base.{
  ℕ, zero, suc, ◌+◌, ◌≡◌, Bool, true, false, not, ◌==◌, ◌||◌, leb, ltb, if◌then◌else◌, List, [],
  ◌∷◌, ◌++◌, Option, none, some, length, map, concat, take, filter, get_elem?, Result, ok, err,
  ◌>>=◌,
}
use blq_node.Base.Bytes.{ascii, be_bytes, bytes_eq}
use blq_node.Base.Sorting.{sort_by}
use blq_node.Externals.{Externals}
use blq_node.Database.{Hex, Sled, Codec, BatchOp, store, delete}
use blq_node.Primitives.{
  Hash256, Address, Bix, Transaction, Receipt, LogEntry, BlockHeader, Block, header_hash,
  transaction_hash, rpc_hash,
}
use blq_node.Storage.Keys.{
  StorageError, not_found, serialization, block_key, header_key, transaction_key, receipt_key,
  log_index_bytes, log_location_key, log_address_key, log_topic_key, int_from_slice,
}

pub record StoredReceipt : Type 0 where
  pub receipt : Receipt
  pub header : BlockHeader
  pub transaction_index : ℕ
  pub transaction : Transaction

-- `SerializedEvmSnapshotEntry`: balance, nonce, code and slots of an address.
abbrev pub EvmAccountSnapshot : Type 0
EvmAccountSnapshot = Bix × ℕ × List ℕ × List (Hash256 × Hash256)

-- The JSON texts of the values in the store.
pub record Json : Type 0 where
  pub block : Codec Block
  pub header : Codec BlockHeader
  pub transaction : Codec Transaction
  pub stored_receipt : Codec StoredReceipt
  pub evm_snapshot : Codec (List (Address × EvmAccountSnapshot))

-- `serde_json::from_slice(&value)`, with its error.
abbrev pub from_slice : {A : Type 0} → Codec A → List ℕ → Result A StorageError
from_slice codec value = elim (codec.from_slice value) [ none ↦ err serialization | some a ↦ ok a ]

-- `get(key)`, with `NotFound` where there is nothing.
abbrev pub parse_option : {A : Type 0} → Codec A → Option (List ℕ) → Result A StorageError
parse_option codec none = err not_found
parse_option codec (some value) = from_slice codec value

module _ {Db : Type 0} ⦃sled : Sled Db⦄ ⦃json : Json⦄ where
  unfoldable pub get_best_number : Db → Result ℕ StorageError
  get_best_number d = elim (sled.get (ascii "best:number") d) [
    | none ↦ err not_found
    | some value ↦ int_from_slice 8 value
  ]

  unfoldable pub is_empty : Db → Bool
  is_empty d = elim (get_best_number d) [ ok number ↦ false | err e ↦ true ]

  unfoldable pub put_header : BlockHeader → Db → Db
  put_header header d =
      sled.insert (ascii "best:number") (be_bytes 8 header.number)
        (sled.insert (header_key header.number) (json.header.to_vec header) d)

  -- The trait's `insert_header`.
  unfoldable pub insert_header : BlockHeader → Db → Db
  insert_header header d = put_header header d

  unfoldable pub header_by_number : ℕ → Db → Result BlockHeader StorageError
  header_by_number number d = parse_option json.header (sled.get (header_key number) d)

  unfoldable pub block_by_number : ℕ → Db → Result Block StorageError
  block_by_number number d = parse_option json.block (sled.get (block_key number) d)

  unfoldable pub best_header : Db → Result BlockHeader StorageError
  best_header d = get_best_number d >>= λ number. header_by_number number d

module _ {Db : Type 0} ⦃sled : Sled Db⦄ ⦃json : Json⦄ ⦃hex : Hex⦄ where
  unfoldable pub transaction_by_hash : Hash256 → Db → Result Transaction StorageError
  transaction_by_hash hash d = parse_option json.transaction (sled.get (transaction_key hash) d)

  unfoldable pub indexed_transaction_receipt_by_hash :
      Hash256 → Db → Result StoredReceipt StorageError
  indexed_transaction_receipt_by_hash hash d =
      parse_option json.stored_receipt (sled.get (receipt_key hash) d)

module _ {Db : Type 0} ⦃sled : Sled Db⦄ ⦃hex : Hex⦄ where
  -- The three loops over the logs of a block.
  unfoldable pub index_topics : List Hash256 → List ℕ → Db → Db
  index_topics [] location d = d
  index_topics (topic ∷ topics) location d =
      index_topics topics location (sled.insert (log_topic_key topic location) location d)

  unfoldable pub index_logs : ℕ → ℕ → ℕ → List LogEntry → Db → Db
  index_logs number transaction_index log_index [] d = d
  index_logs number transaction_index log_index (log ∷ logs) d =
      let location = log_index_bytes number transaction_index log_index in
      index_logs number transaction_index (suc log_index) logs (
        index_topics log.topics location (
          sled.insert (log_address_key log.address location) location
            (sled.insert (log_location_key location) location d)))

  unfoldable pub index_receipts : ℕ → ℕ → List Receipt → Db → Db
  index_receipts number transaction_index [] d = d
  index_receipts number transaction_index (receipt ∷ receipts) d =
      index_receipts number (suc transaction_index) receipts
        (index_logs number transaction_index 0 receipt.logs d)

  unfoldable pub index_block_logs : Block → Db → Db
  index_block_logs block d = index_receipts block.header.number 0 block.receipts d

module _ {Db : Type 0} ⦃sled : Sled Db⦄ ⦃json : Json⦄ ⦃hex : Hex⦄ ⦃env : Externals⦄ where
  unfoldable pub store_external : Transaction → Db → Db
  store_external t d = elim t.external_hash [
    | none ↦ d
    | some hash ↦ sled.insert (transaction_key hash) (json.transaction.to_vec t) d
  ]

  -- One turn of the loop over the transactions.
  unfoldable pub store_transaction : BlockHeader → Receipt → ℕ → Transaction → Db → Db
  store_transaction header receipt index t d =
      let stored = json.stored_receipt.to_vec (record {
        receipt = receipt;
        header = header;
        transaction_index = index;
        transaction = t;
      }) in
      sled.insert (receipt_key (transaction_hash t)) stored (
        sled.insert (receipt_key (rpc_hash t)) stored (
          store_external t
            (sled.insert (transaction_key (transaction_hash t)) (json.transaction.to_vec t) d)))

  -- `none` is the panic of `block.receipts[transaction_index]`.
  unfoldable pub store_transactions :
      BlockHeader → List Receipt → ℕ → List Transaction → Db → Option Db
  store_transactions header receipts index [] d = some d
  store_transactions header receipts index (t ∷ ts) d = elim (get_elem? receipts index) [
    | none ↦ none
    | some receipt ↦
        store_transactions header receipts (suc index) ts
          (store_transaction header receipt index t d)
  ]

  pub insert_block : Block → Db → Option Db
  insert_block block d =
      elim (store_transactions block.header block.receipts 0 block.transactions
        (sled.insert (block_key block.header.number) (json.block.to_vec block) d)) [
          | none ↦ none
          | some stored ↦ some (put_header block.header (index_block_logs block stored))
        ]

-- The same writes as entries of a batch.
module _ ⦃hex : Hex⦄ where
  unfoldable pub batch_topics : List Hash256 → List ℕ → List BatchOp
  batch_topics [] location = []
  batch_topics (topic ∷ topics) location =
      store (log_topic_key topic location) location ∷ batch_topics topics location

  unfoldable pub batch_logs : ℕ → ℕ → ℕ → List LogEntry → List BatchOp
  batch_logs number transaction_index log_index [] = []
  batch_logs number transaction_index log_index (log ∷ logs) =
      let location = log_index_bytes number transaction_index log_index in
      store (log_location_key location) location
      ∷ store (log_address_key log.address location) location
      ∷ (batch_topics log.topics location
          ++ batch_logs number transaction_index (suc log_index) logs)

  unfoldable pub batch_receipts : ℕ → ℕ → List Receipt → List BatchOp
  batch_receipts number transaction_index [] = []
  batch_receipts number transaction_index (receipt ∷ receipts) =
      batch_logs number transaction_index 0 receipt.logs
      ++ batch_receipts number (suc transaction_index) receipts

module _ ⦃json : Json⦄ ⦃hex : Hex⦄ ⦃env : Externals⦄ where
  unfoldable pub batch_external : Transaction → List BatchOp
  batch_external t = elim t.external_hash [
    | none ↦ []
    | some hash ↦ store (transaction_key hash) (json.transaction.to_vec t) ∷ []
  ]

  unfoldable pub batch_transaction : BlockHeader → Receipt → ℕ → Transaction → List BatchOp
  batch_transaction header receipt index t =
      let stored = json.stored_receipt.to_vec (record {
        receipt = receipt;
        header = header;
        transaction_index = index;
        transaction = t;
      }) in
      store (transaction_key (transaction_hash t)) (json.transaction.to_vec t)
      ∷ (batch_external t
          ++ (store (receipt_key (rpc_hash t)) stored
              ∷ store (receipt_key (transaction_hash t)) stored
              ∷ []))

  unfoldable pub batch_transactions :
      BlockHeader → List Receipt → ℕ → List Transaction → Option (List BatchOp)
  batch_transactions header receipts index [] = some []
  batch_transactions header receipts index (t ∷ ts) =
      let rest = batch_transactions header receipts (suc index) ts in
      elim (get_elem? receipts index) [
        | none ↦ none
        | some receipt ↦ elim rest [
          | none ↦ none
          | some ops ↦ some (batch_transaction header receipt index t ++ ops)
        ]
      ]

  -- What is appended to the batch; `none` is the panic of `block.receipts[transaction_index]`.
  unfoldable pub insert_block_into_batch : Block → Option (List BatchOp)
  insert_block_into_batch block =
      elim (batch_transactions block.header block.receipts 0 block.transactions) [
        | none ↦ none
        | some ops ↦ some (
            store (block_key block.header.number) (json.block.to_vec block)
            ∷ store (header_key block.header.number) (json.header.to_vec block.header)
            ∷ (ops ++ batch_receipts block.header.number 0 block.receipts))
      ]

module _ ⦃hex : Hex⦄ ⦃env : Externals⦄ where
  unfoldable pub remove_external : Transaction → List BatchOp
  remove_external t = elim t.external_hash [
    | none ↦ []
    | some hash ↦ delete (transaction_key hash) ∷ []
  ]

  unfoldable pub remove_transactions : List Transaction → List BatchOp
  remove_transactions [] = []
  remove_transactions (t ∷ ts) =
      delete (transaction_key (transaction_hash t))
      ∷ (remove_external t
          ++ (delete (receipt_key (rpc_hash t))
              ∷ delete (receipt_key (transaction_hash t))
              ∷ remove_transactions ts))

  unfoldable pub remove_block_from_batch : Block → List BatchOp
  remove_block_from_batch block =
      delete (block_key block.header.number)
      ∷ delete (header_key block.header.number)
      ∷ remove_transactions block.transactions
