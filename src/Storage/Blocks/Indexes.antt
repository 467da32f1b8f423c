-- ===== src/Storage/Blocks/Indexes.antt =====
-- The indexes by hash and of logs stand apart from the chain's own keys.
use blq_node.Base.{
  ℕ, suc, ◌+◌, ◌≤◌, ◌≡◌, refl, ◌∙◌, false, List, [], ◌∷◌, ◌++◌, some, Option-cases, inl, inr,
  length, get_elem?-some, arith,
}
use blq_node.Base.Bytes.{ascii, bytes_eq}
use blq_node.Base.Prefixes.{starts_with, bytes_eq-apart}
use blq_node.Externals.{Externals}
use blq_node.Database.{Hex, Sled}
use blq_node.Primitives.{
  Hash256, Transaction, Receipt, LogEntry, BlockHeader, transaction_hash, rpc_hash,
}
use blq_node.Storage.Keys.{
  block_key, header_key, transaction_key, receipt_key, log_index_bytes, log_location_key,
  log_address_key, log_topic_key, log_address_prefix, log_topic_prefix,
}
use blq_node.Storage.Blocks.{
  Json, index_topics, index_logs, index_receipts, store_external, store_transaction,
  store_transactions,
}

-- Keys that no index by hash and no index of logs has.
pub record IsChainKey (j : List ℕ) : Type 0 where
  pub transaction : starts_with (ascii "transaction:") j ≡ false
  pub receipt : starts_with (ascii "receipt:") j ≡ false
  pub log : starts_with (ascii "log:index:") j ≡ false

pub block_key-IsChainKey : (n : ℕ) → IsChainKey (block_key n)
unfolding block_key
block_key-IsChainKey n = record { transaction = refl; receipt = refl; log = refl }

pub header_key-IsChainKey : (n : ℕ) → IsChainKey (header_key n)
unfolding header_key
header_key-IsChainKey n = record { transaction = refl; receipt = refl; log = refl }

pub best_key-IsChainKey : IsChainKey (ascii "best:number")
best_key-IsChainKey = record { transaction = refl; receipt = refl; log = refl }

module _ ⦃hex : Hex⦄ where
  pub transaction_key_apart : (h j : List ℕ) → IsChainKey j → bytes_eq (transaction_key h) j ≡ false
  unfolding transaction_key
  transaction_key_apart h j v = bytes_eq-apart (ascii "transaction:") (hex.encode h) j v.transaction

  pub receipt_key_apart : (h j : List ℕ) → IsChainKey j → bytes_eq (receipt_key h) j ≡ false
  unfolding receipt_key
  receipt_key_apart h j v = bytes_eq-apart (ascii "receipt:") (hex.encode h) j v.receipt

  pub log_location_key_apart :
      (l j : List ℕ) → IsChainKey j → bytes_eq (log_location_key l) j ≡ false
  unfolding log_location_key
  log_location_key_apart l j v =
      bytes_eq-apart (ascii "log:index:") (ascii "location:" ++ hex.encode l) j v.log

  pub log_address_key_apart :
      (a l j : List ℕ) → IsChainKey j → bytes_eq (log_address_key a l) j ≡ false
  unfolding log_address_key log_address_prefix
  log_address_key_apart a l j v =
      bytes_eq-apart (ascii "log:index:")
        (ascii "address:" ++ ((hex.encode a ++ ascii ":") ++ hex.encode l)) j v.log

  pub log_topic_key_apart : (t l j : List ℕ) → IsChainKey j → bytes_eq (log_topic_key t l) j ≡ false
  unfolding log_topic_key log_topic_prefix
  log_topic_key_apart t l j v =
      bytes_eq-apart (ascii "log:index:")
        (ascii "topic:" ++ ((hex.encode t ++ ascii ":") ++ hex.encode l)) j v.log

module _ {Db : Type 0} ⦃sled : Sled Db⦄ where
  pub insert_apart :
      (j k v : List ℕ) (d : Db)
      → bytes_eq k j ≡ false
      → sled.get j (sled.insert k v d) ≡ sled.get j d
  insert_apart j k v d h = sled.get-insert j k v d ∙ rw h refl

  pub remove_apart :
      (j k : List ℕ) (d : Db) → bytes_eq k j ≡ false → sled.get j (sled.remove k d) ≡ sled.get j d
  remove_apart j k d h = sled.get-remove j k d ∙ rw h refl

module _ {Db : Type 0} ⦃sled : Sled Db⦄ ⦃hex : Hex⦄ where
  index_topics_apart :
      (j : List ℕ) (topics : List Hash256) (l : List ℕ) (d : Db)
      → IsChainKey j
      → sled.get j (index_topics topics l d) ≡ sled.get j d
  unfolding index_topics
  index_topics_apart j [] l d v = refl
  index_topics_apart j (t ∷ topics) l d v =
      index_topics_apart j topics l _ v
      ∙ insert_apart j (log_topic_key t l) l d (log_topic_key_apart t l j v)

  index_logs_apart :
      (j : List ℕ) (n t i : ℕ) (logs : List LogEntry) (d : Db)
      → IsChainKey j
      → sled.get j (index_logs n t i logs d) ≡ sled.get j d
  unfolding index_logs
  index_logs_apart j n t i [] d v = refl
  index_logs_apart j n t i (log ∷ logs) d v =
      let l = log_index_bytes n t i in
      index_logs_apart j n t (suc i) logs _ v
      ∙ index_topics_apart j log.topics l _ v
      ∙ insert_apart {Db = Db} j (log_address_key log.address l) l _
          (log_address_key_apart log.address l j v)
      ∙ insert_apart {Db = Db} j (log_location_key l) l d (log_location_key_apart l j v)

  pub index_receipts_apart :
      (j : List ℕ) (n t : ℕ) (receipts : List Receipt) (d : Db)
      → IsChainKey j
      → sled.get j (index_receipts n t receipts d) ≡ sled.get j d
  unfolding index_receipts
  index_receipts_apart j n t [] d v = refl
  index_receipts_apart j n t (r ∷ receipts) d v =
      index_receipts_apart j n (suc t) receipts _ v ∙ index_logs_apart j n t 0 r.logs d v

module _ {Db : Type 0} ⦃sled : Sled Db⦄ ⦃json : Json⦄ ⦃hex : Hex⦄ ⦃env : Externals⦄ where
  store_external_apart :
      (j : List ℕ) (t : Transaction) (d : Db)
      → IsChainKey j
      → sled.get j (store_external t d) ≡ sled.get j d
  unfolding store_external
  store_external_apart j t d v = elim (Option-cases t.external_hash) [
    | inl e ↦ rw (e, store_external) refl
    | inr (h, e) ↦
        rw (e, store_external)
          (insert_apart {Db = Db} j (transaction_key h) _ d (transaction_key_apart h j v))
  ]

  store_transaction_apart :
      (j : List ℕ) (header : BlockHeader) (r : Receipt) (i : ℕ) (t : Transaction) (d : Db)
      → IsChainKey j
      → sled.get j (store_transaction header r i t d) ≡ sled.get j d
  unfolding store_transaction
  store_transaction_apart j header r i t d v =
      insert_apart {Db = Db} j (receipt_key (transaction_hash t)) _ _ (receipt_key_apart _ j v)
      ∙ insert_apart {Db = Db} j (receipt_key (rpc_hash t)) _ _ (receipt_key_apart _ j v)
      ∙ store_external_apart j t
          (sled.insert (transaction_key (transaction_hash t)) (json.transaction.to_vec t) d) v
      ∙ insert_apart {Db = Db} j (transaction_key (transaction_hash t)) _ d
          (transaction_key_apart _ j v)

  -- With a receipt for each transaction the loop ends, and leaves the chain's own keys alone.
  pub store_transactions_total :
      (header : BlockHeader) (receipts : List Receipt) (i : ℕ) (ts : List Transaction) (d : Db)
      → i + length ts ≤ length receipts
      → (d' : Db) × (store_transactions header receipts i ts d ≡ some d')
        × ((j : List ℕ) → IsChainKey j → sled.get j d' ≡ sled.get j d)
  unfolding store_transactions
  store_transactions_total header receipts i [] d h = (d, refl, (λ j v. refl))
  store_transactions_total header receipts i (t ∷ ts) d h =
      let (r, e) = get_elem?-some receipts i (omega arith) in
      let (d', p, same) =
        store_transactions_total header receipts (suc i) ts (store_transaction header r i t d)
          (omega arith) in
      (
        d',
        (rw (e, store_transactions) p),
        (λ j v. same j v ∙ store_transaction_apart j header r i t d v),
      )
