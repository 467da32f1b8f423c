-- ===== src/Mempool/Persistence/RoundTrip.antt =====
-- What was saved is what is loaded.
use mathlib.Core.Path.{subst}
use blq_node.Base.{
  ℕ, ◌≤◌, ◌≡◌, ◌≢◌, refl, sym, ◌∙◌, ap, Bool, false, List, [], ◌∷◌, ◌++◌, Option, some, none, arith,
  length, length-append, map, any, any-All, find, All, All-imp, Pairwise, ltb, leb, ok,
}
use blq_node.Base.Bytes.{bytes_eq_refl}
use blq_node.Base.Pairs.{All-snoc}
use blq_node.Base.Sorting.{IsSorted, sort_by-sorted}
use blq_node.Base.Assoc.{lookup, insert, lookup-insert}
use blq_node.Externals.{Externals}
use blq_node.Primitives.{Bix, Hash256, Transaction, rpc_hash}
use blq_node.Consensus.Validation.{validate_transaction_fee}
use blq_node.Mempool.{
  Mempool, added, fee_cmp, sort_by_fee, same_slot, same_hash, append, add_checked, add,
  empty_mempool,
}
use blq_node.Mempool.Invariant.{IsValid, same_hash_symm, same_slot_symm}
use blq_node.Mempool.Operations.{unwrap_or}
use blq_node.Mempool.Persistence.{
  PersistedEntry, note_time, load_entry, load_entries, load, entry_of, save,
}

module _ {A : Type 0} where
  find-eq-none : (p : A → Bool) (xs : List A) → All (λ x. p x ≡ false) xs → find p xs ≡ none
  find-eq-none p [] h = refl
  find-eq-none p (x ∷ xs) h = ground (arith, find-eq-none p xs h.1)

  All-split : (P : A → Type 0) (xs ys : List A) → All P (xs ++ ys) → All P xs × All P ys
  All-split P [] ys h = (tt, h)
  All-split P (x ∷ xs) ys h = let rest = All-split P xs ys h.1 in ((h.0, rest.0), rest.1)

  unwrap : (o : Option A) (d : A) → o ≢ none → some (unwrap_or o d) ≡ o
  unwrap none d h = absurd (h refl)
  unwrap (some a) d h = refl

  append_nil : (xs : List A) → xs ++ [] ≡ xs
  append_nil [] = refl
  append_nil (x ∷ xs) = ap (λ ys. x ∷ ys) (append_nil xs)

  append_snoc : (xs : List A) (a : A) (ys : List A) → (xs ++ (a ∷ [])) ++ ys ≡ xs ++ (a ∷ ys)
  append_snoc [] a ys = refl
  append_snoc (x ∷ xs) a ys = ap (λ zs. x ∷ zs) (append_snoc xs a ys)

  module _ (R : A → A → Type 0) where
    Pairwise-prefix : (xs ys : List A) → Pairwise R (xs ++ ys) → Pairwise R xs
    Pairwise-prefix [] ys h = tt
    Pairwise-prefix (x ∷ xs) ys h = ((All-split (R x) xs ys h.0).0, Pairwise-prefix xs ys h.1)

    Pairwise-middle :
        (xs : List A) (a : A) (ys : List A) → Pairwise R (xs ++ (a ∷ ys)) → All (λ x. R x a) xs
    Pairwise-middle [] a ys h = tt
    Pairwise-middle (x ∷ xs) a ys h =
        ((All-split (R x) xs (a ∷ ys) h.0).1.0, Pairwise-middle xs a ys h.1)

module _ ⦃env : Externals⦄ where
  -- What the transactions of a valid pool are together.
  record IsPool (b : Bix) (ts : List Transaction) : Type 0 where
    sorted : IsSorted fee_cmp ts
    bounded : length ts ≤ 5_000
    slots : Pairwise (λ x y. same_slot x y ≡ false) ts
    hashes : Pairwise (λ x y. same_hash x y ≡ false) ts
    floor : All (λ t. 1_000_000_000 ≤ t.max_fee_per_gas) ts
    fees : All (λ t. validate_transaction_fee t b ≡ ok tt) ts

  -- The next transaction of the list is appended.
  add_next :
      (b : Bix) (now : ℕ) (n : Mempool) (t : Transaction) (ts : List Transaction)
      → IsPool b (n.transactions ++ (t ∷ ts))
      → add t b now n ≡ (append t now n, added)
  unfolding add add_checked
  add_next b now n t ts v =
      let pre : List Transaction = n.transactions in
      let fresh : any (same_hash t) pre ≡ false =
        (any-All (same_hash t) pre).1
          (All-imp (λ x. same_hash_symm x t) pre (Pairwise-middle _ pre t ts v.hashes)) in
      let free : find (same_slot t) pre ≡ none =
        find-eq-none (same_slot t) pre
          (All-imp (λ x. same_slot_symm x t) pre (Pairwise-middle _ pre t ts v.slots)) in
      let high : 1_000_000_000 ≤ t.max_fee_per_gas = (All-split _ pre (t ∷ ts) v.floor).1.0 in
      let fine : validate_transaction_fee t b ≡ ok tt = (All-split _ pre (t ∷ ts) v.fees).1.0 in
      let enough : ltb t.max_fee_per_gas 1_000_000_000 ≡ false = ground arith in
      let room : leb 5_000 (length pre) ≡ false =
        ground (arith, v.bounded, length-append pre (t ∷ ts)) in
      rw (enough, fine, fresh, add_checked, free, room) refl

  append_next :
      (b : Bix) (now : ℕ) (n : Mempool) (t : Transaction) (ts : List Transaction)
      → IsPool b (n.transactions ++ (t ∷ ts))
      → (append t now n).transactions ≡ n.transactions ++ (t ∷ [])
  unfolding append sort_by_fee
  append_next b now n t ts v = sort_by-sorted fee_cmp _ (
      Pairwise-prefix _ (n.transactions ++ (t ∷ [])) ts
        (subst (IsSorted fee_cmp) (sym (append_snoc n.transactions t ts)) v.sorted))

  -- A time is noted for each transaction, and it is the given one.
  abbrev IsTimed : (Transaction → ℕ) → Mempool → Type 0
  IsTimed at n = All (λ t. lookup (rpc_hash t) n.first_seen ≡ some (at t)) n.transactions

  timed-insert :
      (at : Transaction → ℕ) (t : Transaction) (k now : ℕ) (seen : List (Hash256 × ℕ))
      (xs : List Transaction)
      → All (λ x. same_hash x t ≡ false) xs
      → All (λ x. lookup (rpc_hash x) seen ≡ some (at x)) xs
      → All
          (λ x.
            lookup (rpc_hash x) (insert (rpc_hash t) k (insert (rpc_hash t) now seen))
            ≡ some (at x))
          xs
  unfolding same_hash
  timed-insert at t k now seen [] h timed = tt
  timed-insert at t k now seen (x ∷ xs) h timed =
      let here : lookup (rpc_hash x) (insert (rpc_hash t) k (insert (rpc_hash t) now seen))
          ≡ some (at x) =
        rw (lookup-insert, h.0, lookup-insert, h.0) timed.0 in
      (here, timed-insert at t k now seen xs h.1 timed.1)

  load_next :
      (at : Transaction → ℕ) (b : Bix) (now : ℕ) (n : Mempool) (t : Transaction)
      (ts : List Transaction)
      → IsPool b (n.transactions ++ (t ∷ ts))
      → IsTimed at n
      → ((load_entry b now n (record { transaction = t; first_seen = at t })).transactions
          ≡ n.transactions ++ (t ∷ []))
        × IsTimed at (load_entry b now n (record { transaction = t; first_seen = at t }))
  unfolding load_entry note_time append
  load_next at b now n t ts v timed =
      let Loaded : Mempool → Type 0 =
        λ m. (m.transactions ≡ n.transactions ++ (t ∷ [])) × IsTimed at m in
      let entry : PersistedEntry = record { transaction = t; first_seen = at t } in
      let next = append_next b now n t ts v in
      let differ = Pairwise-middle (λ x y. same_hash x y ≡ false) n.transactions t ts v.hashes in
      let noted : Loaded (note_time entry (append t now n, added)) = (
        next,
        subst
            (λ xs.
              All
                (λ x.
                  lookup (rpc_hash x)
                    (insert (rpc_hash t) (at t) (insert (rpc_hash t) now n.first_seen))
                  ≡ some (at x))
                xs)
            (sym next)
            (All-snoc _ n.transactions t
              (timed-insert at t (at t) now n.first_seen n.transactions differ timed)
              (rw (lookup-insert, bytes_eq_refl (rpc_hash t)) refl)),
      ) in
      subst (λ r. Loaded (note_time entry r)) (sym (add_next b now n t ts v)) noted

  load_entries_lem :
      (at : Transaction → ℕ) (b : Bix) (now : ℕ) (n : Mempool) (ts : List Transaction)
      → IsPool b (n.transactions ++ ts)
      → IsTimed at n
      → ((load_entries b now n
            (map (λ t. record { transaction = t; first_seen = at t }) ts)).transactions
          ≡ n.transactions ++ ts)
        × IsTimed at
            (load_entries b now n (map (λ t. record { transaction = t; first_seen = at t }) ts))
  unfolding load_entries
  load_entries_lem at b now n [] v timed = (sym (append_nil n.transactions), timed)
  load_entries_lem at b now n (t ∷ ts) v timed =
      let step = load_next at b now n t ts v timed in
      let m : Mempool = load_entry b now n (record { transaction = t; first_seen = at t }) in
      let whole : m.transactions ++ ts ≡ n.transactions ++ (t ∷ ts) =
        ap (λ xs. xs ++ ts) step.0 ∙ append_snoc n.transactions t ts in
      let rest = load_entries_lem at b now m ts (subst (IsPool b) (sym whole) v) step.1 in
      (rest.0 ∙ whole, rest.1)

  IsValid-IsPool :
      (b : Bix) (m : Mempool)
      → IsValid m
      → All (λ t. validate_transaction_fee t b ≡ ok tt) m.transactions
      → IsPool b m.transactions
  IsValid-IsPool b m v fees = record {
    sorted = v.sorted;
    bounded = v.bounded;
    slots = v.slots;
    hashes = v.hashes;
    floor = All-imp (λ t p. p.0) m.transactions v.priced;
    fees = fees;
  }

  same_time :
      (seen loaded : List (Hash256 × ℕ)) (now : ℕ) (xs : List Transaction)
      → All (λ t. lookup (rpc_hash t) seen ≢ none) xs
      → All (λ t. lookup (rpc_hash t) loaded ≡ some ((entry_of seen now t).first_seen)) xs
      → All (λ t. lookup (rpc_hash t) loaded ≡ lookup (rpc_hash t) seen) xs
  unfolding entry_of
  same_time seen loaded now [] h k = tt
  same_time seen loaded now (x ∷ xs) h k =
      (k.0 ∙ unwrap (lookup (rpc_hash x) seen) now h.0, same_time seen loaded now xs h.1 k.1)

  -- A valid pool whose transactions are all acceptable at the base fee of the load comes back from
  -- `save` and `load`: the same transactions in the same order, each with its time of arrival,
  -- whatever the clock reads at the two calls.
  pub load-save :
      (m : Mempool) (b : Bix) (saved loaded : ℕ)
      → IsValid m
      → All (λ t. validate_transaction_fee t b ≡ ok tt) m.transactions
      → ((load (some (save m saved)) b loaded).transactions ≡ m.transactions)
        × All
            (λ t.
              lookup (rpc_hash t) (load (some (save m saved)) b loaded).first_seen
              ≡ lookup (rpc_hash t) m.first_seen)
            m.transactions
  unfolding load save entry_of
  load-save m b saved loaded v fees =
      let at : Transaction → ℕ = λ t. (entry_of m.first_seen saved t).first_seen in
      let same =
        load_entries_lem at b loaded empty_mempool m.transactions (IsValid-IsPool b m v fees) tt in
      let timed =
        subst
          (λ xs.
            All
              (λ t.
                lookup (rpc_hash t) (load (some (save m saved)) b loaded).first_seen ≡ some (at t))
              xs)
          same.0 same.1 in
      (
        same.0,
        same_time m.first_seen (load (some (save m saved)) b loaded).first_seen saved m.transactions
            v.seen timed,
      )
