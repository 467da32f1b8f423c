-- ===== src/Storage/Publication/Keys.antt =====
-- The entries of a block and of a header in a batch, and the loops of a publication over blocks.
use mathlib.Core.Path.{subst}
use blq_node.Base.{
  ℕ, zero, suc, ◌+◌, ◌≤◌, ◌<◌, ◌≡◌, refl, sym, ap, ◌∙◌, true, ◌==◌, if◌then◌else◌, List, [], ◌∷◌,
  ◌++◌, Option, none, some, Option-cases, inl, inr, arith, All, length, ok, u64_mod,
}
use blq_node.Base.Bytes.{bytes_eq}
use blq_node.Externals.{Externals}
use blq_node.Database.{Hex, Sled, BatchOp, store, delete, pending}
use blq_node.Primitives.{BlockHeader, Block}
use blq_node.Storage.Keys.{block_key, header_key}
use blq_node.Storage.Keys.Separation.{block_key_eq, header_key_eq}
use blq_node.Storage.Blocks.{
  Json, block_by_number, batch_receipts, batch_transactions, remove_transactions,
  insert_block_into_batch, remove_block_from_batch,
}
use blq_node.Storage.Blocks.Indexes.{IsChainKey, block_key-IsChainKey, header_key-IsChainKey}
use blq_node.Storage.Publication.{replacement_ops, removed_blocks, is_contiguous, suffix_tip}
use blq_node.Storage.Publication.Batch.{
  pending-Avoids, receipts-Avoids, remove_transactions-Avoids, transactions_total,
  transactions-Avoids, avoid_append,
}
use blq_node.Storage.Publication.Heights.{Numbered, IsHeightKey}

pub option_injective : {A : Type 0} {a b : A} → ◌≡◌ {A = Option A} (some a) (some b) → a ≡ b
option_injective h = cc

two_stores :
    (j k v k' v' : List ℕ) (xs : List BatchOp)
    → pending j xs ≡ none
    → pending j (store k v ∷ store k' v' ∷ xs)
      ≡ (if bytes_eq k' j then some (some v') else if bytes_eq k j then some (some v) else none)
two_stores j k v k' v' xs h = ground (arith, h)

two_deletes :
    (j k k' : List ℕ) (xs : List BatchOp)
    → pending j xs ≡ none
    → pending j (delete k ∷ delete k' ∷ xs)
      ≡ (if bytes_eq k' j then some none else if bytes_eq k j then some none else none)
two_deletes j k k' xs h = ground (arith, h)

-- The keys of a height under the two first entries of a block.
block_choice :
    {A : Type 0} (m n : ℕ) (x y o : A)
    → m < u64_mod
    → n < u64_mod
    → (if bytes_eq (header_key m) (block_key n)
        then x
        else if bytes_eq (block_key m) (block_key n)
        then y
        else o)
      ≡ (if m == n then y else o)
unfolding block_key header_key bytes_eq
block_choice m n x y o h k = ap (λ c. if c then y else o) (block_key_eq m n h k)

header_choice :
    {A : Type 0} (m n : ℕ) (x y o : A)
    → m < u64_mod
    → n < u64_mod
    → (if bytes_eq (header_key m) (header_key n)
        then x
        else if bytes_eq (block_key m) (header_key n)
        then y
        else o)
      ≡ (if m == n then x else o)
unfolding block_key header_key bytes_eq
header_choice m n x y o h k = ap (λ c. if c then x else o) (header_key_eq m n h k)

module _ ⦃json : Json⦄ ⦃hex : Hex⦄ ⦃env : Externals⦄ where
  -- The shape of a block's entries: its block, its header, and others that avoid such keys.
  insert_shape :
      (b : Block) (ops : List BatchOp)
      → insert_block_into_batch b ≡ some ops
      → (tail : List BatchOp) × (ops
          ≡ store (block_key b.header.number) (json.block.to_vec b)
            ∷ store (header_key b.header.number) (json.header.to_vec b.header)
            ∷ (tail ++ batch_receipts b.header.number 0 b.receipts))
        × (batch_transactions b.header b.receipts 0 b.transactions ≡ some tail)
  unfolding insert_block_into_batch
  insert_shape b ops h =
      elim (Option-cases (batch_transactions b.header b.receipts 0 b.transactions)) [
        | inl e ↦ let bad : none ≡ some ops = rw (e, insert_block_into_batch) at h in absurd (cc)
        | inr (tail, e) ↦ (tail, sym (option_injective (rw (e, insert_block_into_batch) at h)), e)
      ]

  others-Avoid :
      (j : List ℕ) (b : Block) (tail : List BatchOp)
      → IsChainKey j
      → batch_transactions b.header b.receipts 0 b.transactions ≡ some tail
      → pending j (tail ++ batch_receipts b.header.number 0 b.receipts) ≡ none
  others-Avoid j b tail v h = pending-Avoids j _ (
      avoid_append j tail (batch_receipts b.header.number 0 b.receipts)
        (transactions-Avoids j b.header b.receipts 0 b.transactions tail h v)
        (receipts-Avoids j b.header.number 0 b.receipts v))

  enter_pending :
      (j : List ℕ) (b : Block) (ops : List BatchOp)
      → IsChainKey j
      → insert_block_into_batch b ≡ some ops
      → pending j ops ≡ (
          if bytes_eq (header_key b.header.number) j
          then some (some (json.header.to_vec b.header))
          else if bytes_eq (block_key b.header.number) j
          then some (some (json.block.to_vec b))
          else none)
  enter_pending j b ops v h =
      let (tail, shape, txs) = insert_shape b ops h in
      ap (pending j) shape
      ∙ two_stores j (block_key b.header.number) (json.block.to_vec b) (header_key b.header.number)
          (json.header.to_vec b.header) (tail ++ batch_receipts b.header.number 0 b.receipts)
          (others-Avoid j b tail v txs)

  leave_pending :
      (j : List ℕ) (b : Block)
      → IsChainKey j
      → pending j (remove_block_from_batch b) ≡ (
          if bytes_eq (header_key b.header.number) j
          then some none
          else if bytes_eq (block_key b.header.number) j
          then some none
          else none)
  unfolding remove_block_from_batch
  leave_pending j b v =
      two_deletes j (block_key b.header.number) (header_key b.header.number)
        (remove_transactions b.transactions)
        (pending-Avoids j (remove_transactions b.transactions)
          (remove_transactions-Avoids j b.transactions v))

  pub block_key-IsHeightKey : (n : ℕ) → n < u64_mod → IsHeightKey (block_key n) n json.block.to_vec
  block_key-IsHeightKey n k = record {
    enters = λ b ops v h.
        enter_pending (block_key n) b ops (block_key-IsChainKey n) h
        ∙ block_choice b.header.number n _ _ _ v k;
    leaves = λ b v.
        leave_pending (block_key n) b (block_key-IsChainKey n)
        ∙ block_choice b.header.number n _ _ _ v k;
  }

  pub header_key-IsHeightKey :
      (n : ℕ) → n < u64_mod → IsHeightKey (header_key n) n (λ b. json.header.to_vec b.header)
  header_key-IsHeightKey n k = record {
    enters = λ b ops v h.
        enter_pending (header_key n) b ops (header_key-IsChainKey n) h
        ∙ header_choice b.header.number n _ _ _ v k;
    leaves = λ b v.
        leave_pending (header_key n) b (header_key-IsChainKey n)
        ∙ header_choice b.header.number n _ _ _ v k;
  }

  -- Every block has a receipt for each transaction.
  abbrev pub HaveReceipts : List Block → Type 0
  HaveReceipts bs = All (λ b. length b.transactions ≤ length b.receipts) bs

  insert_total :
      (b : Block)
      → length b.transactions ≤ length b.receipts
      → (ops : List BatchOp) × (insert_block_into_batch b ≡ some ops)
  unfolding insert_block_into_batch
  insert_total b h =
      let (tail, p, apart) =
        transactions_total b.header b.receipts 0 b.transactions (omega (arith, h)) in
      (
        store (block_key b.header.number) (json.block.to_vec b)
            ∷ store (header_key b.header.number) (json.header.to_vec b.header)
            ∷ (tail ++ batch_receipts b.header.number 0 b.receipts),
        rw (p, insert_block_into_batch) refl,
      )

  pub replacement_ops_total :
      (bs : List Block) → HaveReceipts bs → (ops : List BatchOp) × (replacement_ops bs ≡ ok ops)
  unfolding replacement_ops
  replacement_ops_total [] h = ([], refl)
  replacement_ops_total (b ∷ bs) h =
      let (more, q) = replacement_ops_total bs h.1 in
      let (ops, p) = insert_total b h.0 in (ops ++ more, rw (p, q, replacement_ops) refl)

  pub contiguous-Numbered :
      (parent : BlockHeader) (bs : List Block)
      → parent.number + length bs < u64_mod
      → is_contiguous parent bs ≡ true
      → Numbered (suc parent.number) bs
        × ((suffix_tip parent bs).number ≡ parent.number + length bs)
  unfolding is_contiguous suffix_tip
  contiguous-Numbered parent [] room h = (tt, omega arith)
  contiguous-Numbered parent (b ∷ bs) room h =
      let next : b.header.number ≡ suc parent.number = ground (arith, h) in
      let rest : is_contiguous b.header bs ≡ true = ground (arith, h) in
      let (tail, tip) = contiguous-Numbered b.header bs (omega arith) rest in
      ((next, subst (λ m. Numbered (suc m) bs) next tail), omega arith)

module _ {Db : Type 0} ⦃sled : Sled Db⦄ ⦃json : Json⦄ where
  -- Every height from `m` on and below `m + count` has a body that names its height.
  abbrev pub HasBodies : ℕ → ℕ → Db → Type 0
  HasBodies m count d =
      (n : ℕ)
      → m ≤ n
      → n < m + count
      → (b : Block) × (block_by_number n d ≡ ok b) × (b.header.number ≡ n)

  pub removed_blocks_total :
      (count m : ℕ) (d : Db)
      → HasBodies m count d
      → (bs : List Block) × (removed_blocks count m d ≡ ok bs) × Numbered m bs × (length bs ≡ count)
  unfolding removed_blocks
  removed_blocks_total zero m d h = ([], refl, tt, refl)
  removed_blocks_total (suc count) m d h =
      let (b, p, e) = h m (omega arith) (omega arith) in
      let (bs, q, v, size) =
        removed_blocks_total count (suc m) d (λ n lo hi. h n (omega arith) (omega arith)) in
      (b ∷ bs, rw (p, q, removed_blocks) refl, (e, v), omega arith)
