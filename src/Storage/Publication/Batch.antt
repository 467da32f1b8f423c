-- ===== src/Storage/Publication/Batch.antt =====
-- What the batch of a publication holds for the keys of blocks and headers: only the parts on
-- blocks name these.
use blq_node.Base.{
  ℕ, suc, ◌+◌, ◌≡◌, refl, ap, ◌∙◌, true, false, not, List, [], ◌∷◌, ◌++◌, Option, none, some,
  Option-cases, inl, inr, arith, All, All-append, if_holds, ok, ok_injective, >>=-eq-ok, leb, take,
  get_elem?, get_elem?-some, length, ◌≤◌,
}
use mathlib.Core.Path.{subst}
use blq_node.Base.Bytes.{ascii, be_bytes, be_value, bytes_eq}
use blq_node.Base.Decimals.{padded}
use blq_node.Base.Prefixes.{starts_with, bytes_eq-apart, prefix_apart}
use blq_node.Externals.{Externals}
use blq_node.Database.{Hex, BatchOp, store, delete, pending}
use blq_node.Primitives.{
  Hash256, Address, Bix, Transaction, Receipt, LogEntry, BlockHeader, transaction_hash, rpc_hash,
  hash_zero,
}
use blq_node.Storage.Keys.{
  balance_key, nonce_key, code_key, storage_key, evm_snapshot_key, array_from, log_index_bytes,
}
use blq_node.Storage.Blocks.{
  Json, EvmAccountSnapshot, batch_topics, batch_logs, batch_receipts, batch_external,
  batch_transaction, batch_transactions, remove_external, remove_transactions,
}
use blq_node.Storage.Blocks.Indexes.{
  IsChainKey, transaction_key_apart, receipt_key_apart, log_location_key_apart,
  log_address_key_apart, log_topic_key_apart,
}
use blq_node.Storage.Publication.{
  native_ops, slot_ops, code_ops, evm_ops, stale_log_ops, delete_ops, Suffix, state_ops,
}

-- The later of two parts of a batch decides.
abbrev pub later : Option (Option (List ℕ)) → Option (Option (List ℕ)) → Option (Option (List ℕ))
later none first = first
later (some r) first = some r

pub pending-append :
    (j : List ℕ) (xs ys : List BatchOp) → pending j (xs ++ ys) ≡ later (pending j ys) (pending j xs)
pending-append j [] ys = ground arith
pending-append j (store k v ∷ xs) ys = ground (arith, pending-append j xs ys)
pending-append j (delete k ∷ xs) ys = ground (arith, pending-append j xs ys)

abbrev pub op_key : BatchOp → List ℕ
op_key (store k v) = k
op_key (delete k) = k

-- No entry has the key.
abbrev pub Avoids : List ℕ → List BatchOp → Type 0
Avoids j ops = All (λ op. bytes_eq (op_key op) j ≡ false) ops

pub pending-Avoids : (j : List ℕ) (ops : List BatchOp) → Avoids j ops → pending j ops ≡ none
pending-Avoids j [] h = refl
pending-Avoids j (store k v ∷ ops) h = rw (pending-Avoids j ops h.1, h.0) refl
pending-Avoids j (delete k ∷ ops) h = rw (pending-Avoids j ops h.1, h.0) refl

abbrev pub avoid_append :
    (j : List ℕ) (xs ys : List BatchOp) → Avoids j xs → Avoids j ys → Avoids j (xs ++ ys)
avoid_append j xs ys h k = All-append (λ op. bytes_eq (op_key op) j ≡ false) xs ys h k

-- The keys of blocks and headers are of no family that the rest of the batch touches.
pub record IsCoreKey (j : List ℕ) : Type 0 where
  pub chain : IsChainKey j
  pub account : starts_with (ascii "account:") j ≡ false
  pub state : starts_with (ascii "state:") j ≡ false
  pub snapshot : starts_with (ascii "state:evm:snapshot:") j ≡ false

module _ ⦃hex : Hex⦄ where
  topics-Avoids :
      (j : List ℕ) (topics : List Hash256) (l : List ℕ)
      → IsChainKey j
      → Avoids j (batch_topics topics l)
  unfolding batch_topics
  topics-Avoids j [] l v = tt
  topics-Avoids j (t ∷ topics) l v = (log_topic_key_apart t l j v, topics-Avoids j topics l v)

  logs-Avoids :
      (j : List ℕ) (n t i : ℕ) (logs : List LogEntry)
      → IsChainKey j
      → Avoids j (batch_logs n t i logs)
  unfolding batch_logs
  logs-Avoids j n t i [] v = tt
  logs-Avoids j n t i (log ∷ logs) v =
      let l = log_index_bytes n t i in
      let more =
        avoid_append j (batch_topics log.topics l) (batch_logs n t (suc i) logs)
          (topics-Avoids j log.topics l v) (logs-Avoids j n t (suc i) logs v) in
      (log_location_key_apart l j v, (log_address_key_apart log.address l j v, more))

  pub receipts-Avoids :
      (j : List ℕ) (n t : ℕ) (receipts : List Receipt)
      → IsChainKey j
      → Avoids j (batch_receipts n t receipts)
  unfolding batch_receipts
  receipts-Avoids j n t [] v = tt
  receipts-Avoids j n t (r ∷ receipts) v =
      avoid_append j (batch_logs n t 0 r.logs) (batch_receipts n (suc t) receipts)
        (logs-Avoids j n t 0 r.logs v) (receipts-Avoids j n (suc t) receipts v)

  native-Avoids :
      (j : List ℕ) (accounts : List (Address × (Bix × ℕ)))
      → IsCoreKey j
      → Avoids j (native_ops accounts)
  unfolding native_ops balance_key nonce_key
  native-Avoids j [] v = tt
  native-Avoids j ((a, acc) ∷ accounts) v = (
    bytes_eq-apart (ascii "account:") (ascii "balance:" ++ hex.encode a) j v.account,
    (
      bytes_eq-apart (ascii "account:") (ascii "nonce:" ++ hex.encode a) j v.account,
      native-Avoids j accounts v,
    ),
  )

  slots-Avoids :
      (j a : List ℕ) (slots : List (Hash256 × Hash256)) → IsCoreKey j → Avoids j (slot_ops a slots)
  unfolding slot_ops storage_key
  slots-Avoids j a [] v = tt
  slots-Avoids j a ((s, x) ∷ slots) v =
      if_holds (Avoids j) (not (bytes_eq x hash_zero))
        (store (storage_key a s) x ∷ slot_ops a slots) (slot_ops a slots)
        (
          bytes_eq-apart (ascii "account:")
              (ascii "storage:" ++ (hex.encode a ++ (58 ∷ hex.encode s))) j v.account,
          slots-Avoids j a slots v,
        )
        (slots-Avoids j a slots v)

  code-Avoids : (j a code : List ℕ) → IsCoreKey j → Avoids j (code_ops a code)
  unfolding code_ops code_key
  code-Avoids j a [] v = tt
  code-Avoids j a (c ∷ code) v =
      (bytes_eq-apart (ascii "account:") (ascii "code:" ++ hex.encode a) j v.account, tt)

  evm-Avoids :
      (j : List ℕ) (accounts : List (Address × EvmAccountSnapshot))
      → IsCoreKey j
      → Avoids j (evm_ops accounts)
  unfolding evm_ops
  evm-Avoids j [] v = tt
  evm-Avoids j ((a, acc) ∷ accounts) v =
      let tail =
        avoid_append j (slot_ops a acc.3) (evm_ops accounts) (slots-Avoids j a acc.3 v)
          (evm-Avoids j accounts v) in
      avoid_append j (code_ops a acc.2) (slot_ops a acc.3 ++ evm_ops accounts)
        (code-Avoids j a acc.2 v) tail

pub delete_ops-Avoids :
    (p j : List ℕ) (entries : List (List ℕ × List ℕ))
    → All (λ e. starts_with p e.0 ≡ true) entries
    → starts_with p j ≡ false
    → Avoids j (delete_ops entries)
unfolding delete_ops
delete_ops-Avoids p j [] h n = tt
delete_ops-Avoids p j (e ∷ entries) h n =
    (prefix_apart p e.0 j h.0 n, delete_ops-Avoids p j entries h.1 n)

pub stale_log_ops-Avoids :
    (from : ℕ) (p j : List ℕ) (entries : List (List ℕ × List ℕ)) (ops : List BatchOp)
    → All (λ e. starts_with p e.0 ≡ true) entries
    → starts_with p j ≡ false
    → stale_log_ops from entries ≡ ok ops
    → Avoids j ops
unfolding stale_log_ops
stale_log_ops-Avoids from p j [] ops h n e = subst (Avoids j) (ok_injective e) tt
stale_log_ops-Avoids from p j (entry ∷ entries) ops h n e =
    let (location, q, g) = >>=-eq-ok (array_from 16 entry.1) _ e in
    let (rest, r, last) = >>=-eq-ok (stale_log_ops from entries) _ g in
    let tail = stale_log_ops-Avoids from p j entries rest h.1 n r in
    subst (Avoids j) (ok_injective last) (
      if_holds (Avoids j) (leb from (be_value (take 8 location))) (delete entry.0 ∷ rest) rest
        (prefix_apart p entry.0 j h.0 n, tail) tail)

module _ ⦃hex : Hex⦄ ⦃env : Externals⦄ where
  remove_external-Avoids :
      (j : List ℕ) (t : Transaction) → IsChainKey j → Avoids j (remove_external t)
  unfolding remove_external
  remove_external-Avoids j t v = elim (Option-cases t.external_hash) [
    | inl e ↦ rw (e, remove_external) tt
    | inr (h, e) ↦ rw (e, remove_external) (transaction_key_apart h j v, tt)
  ]

  pub remove_transactions-Avoids :
      (j : List ℕ) (ts : List Transaction) → IsChainKey j → Avoids j (remove_transactions ts)
  unfolding remove_transactions
  remove_transactions-Avoids j [] v = tt
  remove_transactions-Avoids j (t ∷ ts) v = (
    transaction_key_apart (transaction_hash t) j v,
    avoid_append j (remove_external t) _ (remove_external-Avoids j t v) (
      receipt_key_apart (rpc_hash t) j v,
      (receipt_key_apart (transaction_hash t) j v, remove_transactions-Avoids j ts v),
    ),
  )

module _ ⦃json : Json⦄ ⦃hex : Hex⦄ ⦃env : Externals⦄ where
  external-Avoids : (j : List ℕ) (t : Transaction) → IsChainKey j → Avoids j (batch_external t)
  unfolding batch_external
  external-Avoids j t v = elim (Option-cases t.external_hash) [
    | inl e ↦ rw (e, batch_external) tt
    | inr (h, e) ↦ rw (e, batch_external) (transaction_key_apart h j v, tt)
  ]

  transaction-Avoids :
      (j : List ℕ) (header : BlockHeader) (r : Receipt) (i : ℕ) (t : Transaction)
      → IsChainKey j
      → Avoids j (batch_transaction header r i t)
  unfolding batch_transaction
  transaction-Avoids j header r i t v = (
    transaction_key_apart (transaction_hash t) j v,
    avoid_append j (batch_external t) _ (external-Avoids j t v)
        (receipt_key_apart (rpc_hash t) j v, (receipt_key_apart (transaction_hash t) j v, tt)),
  )

  -- With a receipt for each transaction the loop gives entries that avoid the chain's own keys.
  pub transactions_total :
      (header : BlockHeader) (receipts : List Receipt) (i : ℕ) (ts : List Transaction)
      → i + length ts ≤ length receipts
      → (ops : List BatchOp) × (batch_transactions header receipts i ts ≡ some ops)
        × ((j : List ℕ) → IsChainKey j → Avoids j ops)
  unfolding batch_transactions
  transactions_total header receipts i [] h = ([], refl, (λ j v. tt))
  transactions_total header receipts i (t ∷ ts) h =
      let (r, e) = get_elem?-some receipts i (omega arith) in
      let (ops, p, apart) = transactions_total header receipts (suc i) ts (omega arith) in
      (
        batch_transaction header r i t ++ ops,
        rw (e, p, batch_transactions) refl,
        (λ j v.
            avoid_append j (batch_transaction header r i t) ops
              (transaction-Avoids j header r i t v) (apart j v)),
      )

  -- Whatever the loop gives avoids such keys.
  pub transactions-Avoids :
      (j : List ℕ) (header : BlockHeader) (receipts : List Receipt) (i : ℕ) (ts : List Transaction)
      (ops : List BatchOp)
      → batch_transactions header receipts i ts ≡ some ops
      → IsChainKey j
      → Avoids j ops
  unfolding batch_transactions
  transactions-Avoids j header receipts i [] ops h v =
      let e : [] ≡ ops = cc in subst (Avoids j) e tt
  transactions-Avoids j header receipts i (t ∷ ts) ops h v =
      elim (Option-cases (get_elem? receipts i)) [
        | inl e ↦ let bad : none ≡ some ops = rw (e, batch_transactions) at h in absurd (cc)
        | inr (r, e) ↦ elim (Option-cases (batch_transactions header receipts (suc i) ts)) [
          | inl q ↦ let bad : none ≡ some ops = rw (e, q, batch_transactions) at h in absurd (cc)
          | inr (rest, q) ↦
              let last : some (batch_transaction header r i t ++ rest) ≡ some ops =
                rw (e, q, batch_transactions) at h in
              let same : batch_transaction header r i t ++ rest ≡ ops = cc in
              subst (Avoids j) same (
                avoid_append j (batch_transaction header r i t) rest
                  (transaction-Avoids j header r i t v)
                  (transactions-Avoids j header receipts (suc i) ts rest q v))
        ]
      ]

  state_tail : Suffix → ℕ → List BatchOp
  state_tail s tip =
      store (evm_snapshot_key tip) (json.evm_snapshot.to_vec s.evm_accounts)
      ∷ store (ascii "state:rewards:indexed_to") (be_bytes 8 tip)
      ∷ store (ascii "state:supply:indexed_to") (be_bytes 8 s.supply_totals.0)
      ∷ store (ascii "state:supply:total") (be_bytes 16 s.supply_totals.1)
      ∷ store (ascii "state:supply:burned") (be_bytes 16 s.supply_totals.2)
      ∷ store (ascii "best:number") (be_bytes 8 tip)
      ∷ []

  pub state_ops-Avoids :
      (j : List ℕ) (s : Suffix) (tip : ℕ)
      → IsCoreKey j
      → bytes_eq (ascii "best:number") j ≡ false
      → Avoids j (state_ops s tip)
  unfolding state_ops evm_snapshot_key
  state_ops-Avoids j s tip v best =
      let at : (rest : List ℕ) → bytes_eq (ascii "state:" ++ rest) j ≡ false =
        λ rest. bytes_eq-apart (ascii "state:") rest j v.state in
      avoid_append j (native_ops s.native_accounts) _ (native-Avoids j s.native_accounts v) (
        avoid_append j (evm_ops s.evm_accounts) _ (evm-Avoids j s.evm_accounts v) (
          at (ascii "evm:snapshot:" ++ padded 20 tip),
          (
            at (ascii "rewards:indexed_to"),
            (
              at (ascii "supply:indexed_to"),
              (at (ascii "supply:total"), (at (ascii "supply:burned"), (best, tt))),
            ),
          ),
        ))

  -- The newest height is written last.
  pub state_ops-best :
      (s : Suffix) (tip : ℕ)
      → pending (ascii "best:number") (state_ops s tip) ≡ some (some (be_bytes 8 tip))
  unfolding state_ops state_tail bytes_eq
  state_ops-best s tip =
      let j = ascii "best:number" in
      pending-append j (native_ops s.native_accounts) (evm_ops s.evm_accounts ++ state_tail s tip)
      ∙ ap (λ o. later o (pending j (native_ops s.native_accounts)))
          (pending-append j (evm_ops s.evm_accounts) (state_tail s tip))
