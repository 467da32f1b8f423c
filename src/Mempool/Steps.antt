-- ===== src/Mempool/Steps.antt =====
-- The updates that `add` is made of keep the pool valid.
use blq_node.Base.{
  ℕ, ◌<◌, ◌≡◌, ◌≢◌, refl, true, false, List, [], ◌∷◌, ◌++◌, some, none, arith, length,
  length-append, All, All-imp, Pairwise, get_last?, drop_last, Bool-cases, inl, inr,
}
use blq_node.Base.Bytes.{bytes_eq, bytes_eq_refl}
use blq_node.Base.Pairs.{
  All-drop_last, All-snoc, length-drop_last, Pairwise-drop_last, Pairwise-last, Pairwise-snoc,
}
use blq_node.Base.Sorting.{All-sort_by, Pairwise-sort_by, length-sort_by, sort_by-IsSorted}
use blq_node.Base.Assoc.{lookup, insert, remove, lookup-insert, lookup-remove}
use blq_node.Externals.{Externals}
use blq_node.Primitives.{Transaction, Hash256, rpc_hash}
use blq_node.Mempool.{
  Mempool, fee_cmp, sort_by_fee, same_slot, same_hash, replace_slot, replace, append, evict,
}
use blq_node.Mempool.Invariant.{
  IsPriced, IsValid, same_hash_symm, same_slot_symm, same_slot_trans, fee_cmp_total, fee_cmp_trans,
}

All-replace_slot :
    (P : Transaction → Type 0) (t : Transaction) (xs : List Transaction)
    → P t
    → All P xs
    → All P (replace_slot t xs)
unfolding replace_slot
All-replace_slot P t [] h k = tt
All-replace_slot P t (x ∷ xs) h k = ground (arith, All-replace_slot P t xs h k.1)

length-replace_slot :
    (t : Transaction) (xs : List Transaction) → length (replace_slot t xs) ≡ length xs
unfolding replace_slot
length-replace_slot t [] = refl
length-replace_slot t (x ∷ xs) = ground (arith, length-replace_slot t xs)

Pairwise-replace_slot :
    (R : Transaction → Transaction → Type 0) (symm : (a b : Transaction) → R a b → R b a)
    (t : Transaction) (xs : List Transaction)
    → All (R t) xs
    → Pairwise R xs
    → Pairwise R (replace_slot t xs)
unfolding replace_slot
Pairwise-replace_slot R symm t [] h k = tt
Pairwise-replace_slot R symm t (x ∷ xs) h k = ground (
  arith,
  Pairwise-replace_slot R symm t xs h.1 k.1,
  All-replace_slot (R x) t xs (symm t x h.0) k.0,
)

-- The slot of a replacement is the slot of what it replaces.
others_differ :
    (t x : Transaction) (xs : List Transaction)
    → same_slot t x ≡ true
    → All (λ y. same_slot x y ≡ false) xs
    → All (λ y. same_slot t y ≡ false) xs
others_differ t x xs h k = All-imp (λ y. same_slot_trans t x y h) xs k

slots-replace_slot :
    (t : Transaction) (xs : List Transaction)
    → Pairwise (λ a b. same_slot a b ≡ false) xs
    → Pairwise (λ a b. same_slot a b ≡ false) (replace_slot t xs)
unfolding replace_slot
slots-replace_slot t [] k = tt
slots-replace_slot t (x ∷ xs) k = ground (
  arith,
  slots-replace_slot t xs k.1,
  others_differ t x xs,
  All-replace_slot (λ y. same_slot x y ≡ false) t xs,
  same_slot_symm t x,
)

module _ ⦃env : Externals⦄ where
  seen-insert :
      (h k : Hash256) (v : ℕ) (seen : List (Hash256 × ℕ))
      → lookup k seen ≢ none
      → lookup k (insert h v seen) ≢ none
  seen-insert h k v seen n =
      rw lookup-insert
        (elim (Bool-cases (bytes_eq h k)) [ inl same ↦ rw same (λ e. cc) | inr other ↦ rw other n ])

  seen_self : (h : Hash256) (v : ℕ) (seen : List (Hash256 × ℕ)) → lookup h (insert h v seen) ≢ none
  seen_self h v seen = rw (lookup-insert, bytes_eq_refl h) (λ e. cc)

  pub append-IsValid :
      (t : Transaction) (now : ℕ) (m : Mempool)
      → IsValid m
      → length m.transactions < 5_000
      → IsPriced t
      → All (λ x. same_slot t x ≡ false) m.transactions
      → All (λ x. same_hash t x ≡ false) m.transactions
      → IsValid (append t now m)
  unfolding append sort_by_fee
  append-IsValid t now m v room price slot hash = record {
    sorted = sort_by-IsSorted fee_cmp fee_cmp_total fee_cmp_trans _;
    bounded = omega (
      arith,
      length-sort_by fee_cmp (m.transactions ++ (t ∷ [])),
      length-append m.transactions (t ∷ []),
    );
    slots =
        Pairwise-sort_by fee_cmp (λ a b. same_slot a b ≡ false) same_slot_symm _
          (Pairwise-snoc (λ a b. same_slot a b ≡ false) m.transactions t v.slots
            (All-imp (λ x. same_slot_symm t x) m.transactions slot));
    hashes =
        Pairwise-sort_by fee_cmp (λ a b. same_hash a b ≡ false) same_hash_symm _
          (Pairwise-snoc (λ a b. same_hash a b ≡ false) m.transactions t v.hashes
            (All-imp (λ x. same_hash_symm t x) m.transactions hash));
    priced = All-sort_by fee_cmp IsPriced _ (All-snoc IsPriced m.transactions t v.priced price);
    seen = All-sort_by fee_cmp _ _ (
        All-snoc _ m.transactions t
          (All-imp (λ x. seen-insert (rpc_hash t) (rpc_hash x) now m.first_seen) m.transactions
            v.seen)
          (seen_self (rpc_hash t) now m.first_seen));
  }

  pub replace-IsValid :
      (t : Transaction) (now : ℕ) (m : Mempool)
      → IsValid m
      → IsPriced t
      → All (λ x. same_hash t x ≡ false) m.transactions
      → IsValid (replace t now m)
  unfolding replace sort_by_fee
  replace-IsValid t now m v price hash = record {
    sorted = sort_by-IsSorted fee_cmp fee_cmp_total fee_cmp_trans _;
    bounded = omega (
      arith,
      v.bounded,
      length-sort_by fee_cmp (replace_slot t m.transactions),
      length-replace_slot t m.transactions,
    );
    slots =
        Pairwise-sort_by fee_cmp (λ a b. same_slot a b ≡ false) same_slot_symm _
          (slots-replace_slot t m.transactions v.slots);
    hashes =
        Pairwise-sort_by fee_cmp (λ a b. same_hash a b ≡ false) same_hash_symm _
          (Pairwise-replace_slot (λ a b. same_hash a b ≡ false) same_hash_symm t m.transactions hash
            v.hashes);
    priced =
        All-sort_by fee_cmp IsPriced _ (All-replace_slot IsPriced t m.transactions price v.priced);
    seen = All-sort_by fee_cmp _ _ (
        All-replace_slot _ t m.transactions (seen_self (rpc_hash t) now m.first_seen) (
          All-imp (λ x. seen-insert (rpc_hash t) (rpc_hash x) now m.first_seen) m.transactions
            v.seen));
  }

  seen-evict :
      (l : Transaction) (seen : List (Hash256 × ℕ)) (xs : List Transaction)
      → All (λ x. same_hash x l ≡ false) xs
      → All (λ t. lookup (rpc_hash t) seen ≢ none) xs
      → All (λ t. lookup (rpc_hash t) (remove (rpc_hash l) seen) ≢ none) xs
  unfolding same_hash
  seen-evict l seen [] h k = tt
  seen-evict l seen (x ∷ xs) h k = (rw (lookup-remove, h.0) k.0, seen-evict l seen xs h.1 k.1)

  pub evict-IsValid :
      (l : Transaction) (m : Mempool)
      → IsValid m
      → get_last? m.transactions ≡ some l
      → IsValid (evict l m)
  unfolding evict
  evict-IsValid l m v e = record {
    sorted = Pairwise-drop_last _ m.transactions v.sorted;
    bounded = omega (arith, v.bounded, length-drop_last m.transactions e);
    slots = Pairwise-drop_last _ m.transactions v.slots;
    hashes = Pairwise-drop_last _ m.transactions v.hashes;
    priced = All-drop_last IsPriced m.transactions v.priced;
    seen =
        seen-evict l m.first_seen (drop_last m.transactions)
          (Pairwise-last (λ a b. same_hash a b ≡ false) m.transactions v.hashes e)
          (All-drop_last _ m.transactions v.seen);
  }
