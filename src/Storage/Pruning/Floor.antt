-- ===== src/Storage/Pruning/Floor.antt =====
-- What `prune_old_blocks` leaves alone.
use Prim.Native.Nat.{compare}
use blq_node.Base.{
  ◌||◌, ◌/◌, saturating_mul_u64, any, Result-cases, ℕ, suc, ◌≤◌, ◌<◌, ◌≡◌, refl, ap, ◌∙◌, Bool,
  true, false, ◌==◌, leb, ltb, List, [], ◌∷◌, Option, none, Option-cases, Bool-cases, inl, inr, ◌⊎◌,
  All, All-imp, filter, arith, if_holds, err, u64_mod,
}
use blq_node.Base.Bytes.{ascii, bytes_eq}
use blq_node.Base.Prefixes.{starts_with, bytes_eq-apart, prefix_apart, strip_prefix}
use blq_node.Base.Decimals.{padded, parse_u64, parse_u64-lt}
use blq_node.Base.Sorting.{sort_by, All-sort_by}
use blq_node.Externals.{Externals}
use blq_node.Database.{Hex, Sled}
use blq_node.Primitives.{Transaction, transaction_hash, rpc_hash}
use blq_node.Storage.Keys.{not_found, block_key, header_key}
use blq_node.Storage.Keys.Separation.{block_key_eq}
use blq_node.Storage.Blocks.{Json, parse_option, get_best_number, header_by_number, block_by_number}
use blq_node.Storage.Blocks.Indexes.{
  IsChainKey, block_key-IsChainKey, header_key-IsChainKey, best_key-IsChainKey,
  transaction_key_apart, receipt_key_apart, remove_apart,
}
use blq_node.Storage.Pruning.{
  body_height, body_heights, indexes_block, remove_indexed, remove_log_indexes_for_block,
  drop_transactions, drop_body, prune_loop, prune_old_blocks,
}

module _ {Db : Type 0} ⦃sled : Sled Db⦄ where
  remove_indexed_apart :
      (j : List ℕ) (number : ℕ) (entries : List (List ℕ × List ℕ)) (d : Db)
      → IsChainKey j
      → All (λ e. starts_with (ascii "log:index:") e.0 ≡ true) entries
      → sled.get j (remove_indexed number entries d) ≡ sled.get j d
  unfolding remove_indexed
  remove_indexed_apart j number [] d v h = refl
  remove_indexed_apart j number (e ∷ entries) d v h =
      remove_indexed_apart j number entries _ v h.1
      ∙ if_holds (λ x. sled.get j x ≡ sled.get j d) (indexes_block number e) (sled.remove e.0 d) d
          (remove_apart {Db = Db} j e.0 d (prefix_apart (ascii "log:index:") e.0 j h.0 v.log)) refl

  remove_log_indexes_apart :
      (j : List ℕ) (number : ℕ) (d : Db)
      → IsChainKey j
      → sled.get j (remove_log_indexes_for_block number d) ≡ sled.get j d
  unfolding remove_log_indexes_for_block
  remove_log_indexes_apart j number d v =
      remove_indexed_apart j number _ d v
        (All-imp (λ e h. h.0) _ (sled.scan_prefix-get (ascii "log:index:") d))

module _ {Db : Type 0} ⦃sled : Sled Db⦄ ⦃hex : Hex⦄ ⦃env : Externals⦄ where
  drop_transactions_apart :
      (j : List ℕ) (ts : List Transaction) (d : Db)
      → IsChainKey j
      → sled.get j (drop_transactions ts d) ≡ sled.get j d
  unfolding drop_transactions
  drop_transactions_apart j [] d v = refl
  drop_transactions_apart j (t ∷ ts) d v =
      drop_transactions_apart j ts _ v
      ∙ remove_apart {Db = Db} j _ _ (receipt_key_apart (transaction_hash t) j v)
      ∙ remove_apart {Db = Db} j _ _ (receipt_key_apart (rpc_hash t) j v)
      ∙ remove_apart {Db = Db} j _ _ (transaction_key_apart (rpc_hash t) j v)
      ∙ remove_apart {Db = Db} j _ d (transaction_key_apart (transaction_hash t) j v)

-- Only a height that is named goes, and those are 64-bit numbers.
body_heights-lt : (entries : List (List ℕ × List ℕ)) → All (λ n. n < u64_mod) (body_heights entries)
unfolding body_heights body_height
body_heights-lt [] = tt
body_heights-lt (e ∷ entries) = elim (Option-cases (strip_prefix (ascii "block:number:") e.0)) [
  | inl h ↦ rw (h, body_heights) (body_heights-lt entries)
  | inr (text, h) ↦ elim (Option-cases (parse_u64 text)) [
    | inl g ↦ rw (h, g, body_heights) (body_heights-lt entries)
    | inr (n, g) ↦ rw (h, g, body_heights) (parse_u64-lt n text g, body_heights-lt entries)
  ]
]

filtered :
    (P : ℕ → Type 0) (p : ℕ → Bool) (ns : List ℕ)
    → All P ns
    → All (λ n. P n × (p n ≡ true)) (filter p ns)
filtered P p [] h = tt
filtered P p (n ∷ ns) h = elim (Bool-cases (p n)) [
  | inl e ↦ rw e ((h.0, e), filtered P p ns h.1)
  | inr e ↦ rw e (filtered P p ns h.1)
]

-- Two turns, each of which leaves a value or drops one that is named.
joined :
    {x y z : Option (List ℕ)} {c a : Bool}
    → (y ≡ x) ⊎ ((c ≡ true) × (y ≡ none))
    → (z ≡ y) ⊎ ((a ≡ true) × (z ≡ none))
    → (z ≡ x) ⊎ (((c || a) ≡ true) × (z ≡ none))
joined (inl p) (inl q) = inl (q ∙ p)
joined (inl p) (inr q) = inr (ground (arith, q.0), q.1)
joined (inr p) (inl q) = inr (ground (arith, p.0), q ∙ p.1)
joined (inr p) (inr q) = inr (ground (arith, p.0), q.1)

-- None of the heights is the one of the key.
spared :
    (n minimum : ℕ) (numbers : List ℕ)
    → n ≤ minimum
    → n < u64_mod
    → All (λ m. (m < u64_mod) × (ltb minimum m ≡ true)) numbers
    → any (λ m. bytes_eq (block_key m) (block_key n)) numbers ≡ false
spared n minimum [] l h a = refl
spared n minimum (m ∷ numbers) l h a =
    let other : (m == n) ≡ false = ground (arith, a.0.1) in
    rw (block_key_eq m n a.0.0 h, other) (spared n minimum numbers l h a.1)

apart_from_blocks :
    (j : List ℕ) (numbers : List ℕ)
    → starts_with (ascii "block:number:") j ≡ false
    → any (λ m. bytes_eq (block_key m) j) numbers ≡ false
unfolding block_key
apart_from_blocks j [] h = refl
apart_from_blocks j (m ∷ numbers) h =
    rw (bytes_eq-apart (ascii "block:number:") (padded 20 m) j h) (apart_from_blocks j numbers h)

module _ {Db : Type 0} ⦃sled : Sled Db⦄ ⦃json : Json⦄ ⦃hex : Hex⦄ ⦃env : Externals⦄ where
  -- One body goes, and no other key of the chain.
  drop_body-get :
      (j : List ℕ) (number : ℕ) (d : Db)
      → IsChainKey j
      → (sled.get j (drop_body number d) ≡ sled.get j d)
        ⊎ ((bytes_eq (block_key number) j ≡ true) × (sled.get j (drop_body number d) ≡ none))
  unfolding drop_body
  drop_body-get j number d v = elim (Result-cases (block_by_number number d)) [
    | inr (e, h) ↦ inl (rw (h, drop_body) refl)
    | inl (b, h) ↦
        let dropped : sled.get j (drop_body number d)
            ≡ sled.get j (sled.remove (block_key number) (remove_log_indexes_for_block number d)) =
          rw (h, drop_body) (drop_transactions_apart {Db = Db} j b.transactions _ v) in
        let removed =
          dropped ∙ sled.get-remove j (block_key number) (remove_log_indexes_for_block number d) in
        elim (Bool-cases (bytes_eq (block_key number) j)) [
          | inl same ↦ inr (same, removed ∙ rw same refl)
          | inr other ↦ inl (removed ∙ rw other (remove_log_indexes_apart {Db = Db} j number d v))
        ]
  ]

  -- Of the keys of the chain a turn changes at most those of the heights in the list.
  prune_loop-get :
      (j : List ℕ) (target : ℕ) (usage : ℕ → ℕ) (turn : ℕ) (numbers : List ℕ) (d : Db)
      → IsChainKey j
      → (sled.get j (prune_loop target usage turn numbers d) ≡ sled.get j d)
        ⊎ ((any (λ n. bytes_eq (block_key n) j) numbers ≡ true)
            × (sled.get j (prune_loop target usage turn numbers d) ≡ none))
  unfolding prune_loop
  prune_loop-get j target usage turn [] d v = inl refl
  prune_loop-get j target usage turn (n ∷ numbers) d v =
      elim (Bool-cases (leb (usage turn) target)) [
        | inl enough ↦ inl (rw (enough, prune_loop) refl)
        | inr more ↦
            let step = drop_body-get j n d v in
            let rest = prune_loop-get j target usage (suc turn) numbers (drop_body n d) v in
            rw (more, prune_loop) (joined step rest)
      ]

  -- The chain after pruning: headers and the newest height stay, and bodies go or stay whole.
  pub record IsPruned (minimum : ℕ) (d d' : Db) : Type 0 where
    pub best : get_best_number d' ≡ get_best_number d
    pub headers : (n : ℕ) → header_by_number n d' ≡ header_by_number n d
    pub retained : (n : ℕ) → n ≤ minimum → n < u64_mod → block_by_number n d' ≡ block_by_number n d
    pub others :
        (n : ℕ)
        → (block_by_number n d' ≡ block_by_number n d) ⊎ (block_by_number n d' ≡ err not_found)

  kept_key :
      (j : List ℕ) (target : ℕ) (usage : ℕ → ℕ) (numbers : List ℕ) (d : Db)
      → IsChainKey j
      → any (λ m. bytes_eq (block_key m) j) numbers ≡ false
      → sled.get j (prune_loop target usage 0 numbers d) ≡ sled.get j d
  kept_key j target usage numbers d v h = elim (prune_loop-get j target usage 0 numbers d v) [
    | inl same ↦ same
    | inr gone ↦ absurd (cc)
  ]

  best_same :
      (d d' : Db)
      → sled.get (ascii "best:number") d' ≡ sled.get (ascii "best:number") d
      → get_best_number d' ≡ get_best_number d
  unfolding get_best_number
  best_same d d' h = rw (h, get_best_number) refl

  -- Pruning, whatever the disk usage reads, keeps the newest height, every header, and every body at
  -- or below the given height; of the bodies above it each is still there whole or is gone.
  pub prune_old_blocks-IsPruned :
      (max_bytes minimum : ℕ) (usage : ℕ → ℕ) (d : Db)
      → IsPruned minimum d (prune_old_blocks max_bytes minimum usage d)
  unfolding prune_old_blocks header_by_number block_by_number header_key
  prune_old_blocks-IsPruned max_bytes minimum usage d =
      let found = body_heights (sled.scan_prefix (ascii "block:number:") d) in
      let numbers = sort_by compare (filter (λ n. ltb minimum n) found) in
      let bounds : All (λ m. (m < u64_mod) × (ltb minimum m ≡ true)) numbers =
        All-sort_by compare _ (filter (λ n. ltb minimum n) found)
          (filtered _ _ found (body_heights-lt _)) in
      let target = saturating_mul_u64 max_bytes 9 / 10 in
      let d' = prune_loop target usage 0 numbers d in
      record {
        best = best_same d d' (
            kept_key (ascii "best:number") target usage numbers d best_key-IsChainKey
              (apart_from_blocks _ numbers refl));
        headers = λ n. ap (parse_option json.header) (
            kept_key (header_key n) target usage numbers d (header_key-IsChainKey n)
              (apart_from_blocks _ numbers refl));
        retained = λ n l h. ap (parse_option json.block) (
            kept_key (block_key n) target usage numbers d (block_key-IsChainKey n)
              (spared n minimum numbers l h bounds));
        others = λ n.
            elim (prune_loop-get (block_key n) target usage 0 numbers d (block_key-IsChainKey n)) [
              | inl same ↦ inl (ap (parse_option json.block) same)
              | inr gone ↦ inr (ap (parse_option json.block) gone.1)
            ];
      }
