-- ===== src/Mempool/Operations/Invariant.antt =====
-- Removal keeps a pool valid, and removes what it means to.
use mathlib.Core.Path.{fun_ext, subst}
use blq_node.Base.{
  ℕ, suc, ◌+◌, ◌≡◌, ◌≢◌, refl, sym, ◌∙◌, Bool, true, false, not, ◌&&◌, ◌||◌, List, [], ◌∷◌, none,
  arith, ltb, leb, length, map, filter, All, All-imp, Pairwise, Bool-cases, inl, inr, ap,
}
use blq_node.Base.Bytes.{bytes_eq_refl, bytes_eq_sym}
use blq_node.Base.Pairs.{All-filter, Pairwise-filter, length-filter}
use blq_node.Base.Assoc.{lookup, remove, lookup-remove}
use blq_node.Externals.{Externals}
use blq_node.Primitives.{Hash256, Address, Transaction, rpc_hash, transaction_hash}
use blq_node.Mempool.{Mempool, same_hash}
use blq_node.Mempool.Invariant.{IsPriced, IsValid}
use blq_node.Mempool.Operations.{
  contains, forget, age, remove_expired, remove_stale_nonces, is_included, remove_included,
}

pub lookup-forget :
    (hs : List Hash256) (k : Hash256) (seen : List (Hash256 × ℕ))
    → contains hs k ≡ false
    → lookup k (forget hs seen) ≡ lookup k seen
unfolding contains forget
lookup-forget [] k seen h = refl
lookup-forget (x ∷ hs) k seen h =
    ground (arith, lookup-forget hs k (remove x seen), lookup-remove x k seen)

filter-congr :
    {A : Type 0} (p q : A → Bool) (xs : List A)
    → All (λ x. p x ≡ q x) xs
    → filter p xs ≡ filter q xs
filter-congr p q [] h = refl
filter-congr p q (x ∷ xs) h = ground (arith, filter-congr p q xs h.1)

filter-cons :
    {A : Type 0} (p : A → Bool) (x : A) (xs : List A)
    → p x ≡ true
    → filter p (x ∷ xs) ≡ x ∷ filter p xs
filter-cons p x xs h = ground arith

filter-skip :
    {A : Type 0} (p : A → Bool) (x : A) (xs : List A)
    → p x ≡ false
    → filter p (x ∷ xs) ≡ filter p xs
filter-skip p x xs h = ground arith

length-map : {A : Type 0} {B : Type 0} (f : A → B) (xs : List A) → length (map f xs) ≡ length xs
length-map f [] = refl
length-map f (x ∷ xs) = ap suc (length-map f xs)

length-filter-not :
    {A : Type 0} (p : A → Bool) (xs : List A)
    → length (filter p xs) + length (filter (λ x. not (p x)) xs) ≡ length xs
length-filter-not p [] = refl
length-filter-not p (x ∷ xs) = ground (arith, length-filter-not p xs)

module _ ⦃env : Externals⦄ where
  -- the pool without the transactions that pass a test
  pub without : (Transaction → Bool) → Mempool → Mempool
  without p m = record {
    transactions = filter (λ t. not (p t)) m.transactions;
    first_seen = forget (map rpc_hash (filter p m.transactions)) m.first_seen;
  }

  fresh_hash :
      (p : Transaction → Bool) (x : Transaction) (xs : List Transaction)
      → All (λ y. same_hash x y ≡ false) xs
      → contains (map rpc_hash (filter p xs)) (rpc_hash x) ≡ false
  unfolding contains same_hash
  fresh_hash p x [] h = refl
  fresh_hash p x (y ∷ ys) h = ground (arith, fresh_hash p x ys h.1)

  behind :
      (p : Transaction → Bool) (x : Transaction) (xs : List Transaction) (hs : List Hash256)
      → All (λ y. same_hash x y ≡ false) xs
      → All (λ y. contains hs (rpc_hash y) ≡ p y) xs
      → All (λ y. contains (rpc_hash x ∷ hs) (rpc_hash y) ≡ p y) xs
  unfolding contains same_hash
  behind p x [] hs differ known = tt
  behind p x (y ∷ ys) hs differ known = (
    (rw (bytes_eq_sym (rpc_hash x) (rpc_hash y), differ.0) known.0),
    behind p x ys hs differ.1 known.1,
  )

  -- Among unique hashes, the removed ones are those of the removed transactions.
  removed_hashes :
      (p : Transaction → Bool) (xs : List Transaction)
      → Pairwise (λ a b. same_hash a b ≡ false) xs
      → All (λ t. contains (map rpc_hash (filter p xs)) (rpc_hash t) ≡ p t) xs
  unfolding contains same_hash
  removed_hashes p [] h = tt
  removed_hashes p (x ∷ xs) h =
      let hs : List Hash256 = map rpc_hash (filter p xs) in
      let Known : List Transaction → Type 0 =
        λ ys. All (λ t. contains (map rpc_hash ys) (rpc_hash t) ≡ p t) (x ∷ xs) in
      let rest = removed_hashes p xs h.1 in
      elim (Bool-cases (p x)) [
        | inl out ↦
            let self : contains (rpc_hash x ∷ hs) (rpc_hash x) ≡ p x =
              ground (arith, bytes_eq_refl (rpc_hash x)) in
            subst Known (sym (filter-cons p x xs out)) (self, behind p x xs hs h.0 rest)
        | inr stays ↦
            subst Known (sym (filter-skip p x xs stays)) (fresh_hash p x xs h.0 ∙ sym stays, rest)
      ]

  -- Dropping by the hashes of the removed transactions drops these.
  retained :
      (p : Transaction → Bool) (xs : List Transaction)
      → Pairwise (λ a b. same_hash a b ≡ false) xs
      → filter (λ t. not (contains (map rpc_hash (filter p xs)) (rpc_hash t))) xs
        ≡ filter (λ t. not (p t)) xs
  retained p xs h = filter-congr _ _ xs (All-imp (λ t e. ap not e) xs (removed_hashes p xs h))

  seen-without :
      (p : Transaction → Bool) (hs : List Hash256) (seen : List (Hash256 × ℕ))
      (xs : List Transaction)
      → All (λ t. contains hs (rpc_hash t) ≡ p t) xs
      → All (λ t. lookup (rpc_hash t) seen ≢ none) xs
      → All (λ t. lookup (rpc_hash t) (forget hs seen) ≢ none) (filter (λ t. not (p t)) xs)
  seen-without p hs seen [] known h = tt
  seen-without p hs seen (x ∷ xs) known h =
      let rest = seen-without p hs seen xs known.1 h.1 in
      elim (Bool-cases (p x)) [
        | inl out ↦ rw out rest
        | inr stays ↦ rw stays (rw (lookup-forget hs (rpc_hash x) seen (known.0 ∙ stays)) h.0, rest)
      ]

  pub without-IsValid : (p : Transaction → Bool) (m : Mempool) → IsValid m → IsValid (without p m)
  unfolding without
  without-IsValid p m v = record {
    sorted = Pairwise-filter _ _ m.transactions v.sorted;
    bounded = omega (arith, v.bounded, length-filter (λ t. not (p t)) m.transactions);
    slots = Pairwise-filter _ _ m.transactions v.slots;
    hashes = Pairwise-filter _ _ m.transactions v.hashes;
    priced = All-filter IsPriced _ m.transactions v.priced;
    seen =
        seen-without p _ m.first_seen m.transactions (removed_hashes p m.transactions v.hashes)
          v.seen;
  }

  abbrev pub is_expired : Mempool → ℕ → ℕ → Transaction → Bool
  is_expired m now max_age t = leb max_age (age m now t)

  pub remove_expired-without :
      (now max_age : ℕ) (m : Mempool)
      → IsValid m
      → (remove_expired now max_age m).0 ≡ without (is_expired m now max_age) m
  unfolding remove_expired without
  remove_expired-without now max_age m v =
      rw (retained (is_expired m now max_age) m.transactions v.hashes) refl

  -- Removal of the expired transactions of a valid pool leaves a valid pool: the transactions
  -- that are younger than the limit, in their order. The count it returns is of what it took out.
  pub remove_expired_lem :
      (now max_age : ℕ) (m : Mempool)
      → IsValid m
      → IsValid (remove_expired now max_age m).0
        × ((remove_expired now max_age m).0.transactions
            ≡ filter (λ t. not (leb max_age (age m now t))) m.transactions)
        × ((remove_expired now max_age m).1 + length ((remove_expired now max_age m).0.transactions)
            ≡ length m.transactions)
  unfolding remove_expired
  remove_expired_lem now max_age m v =
      let p : Transaction → Bool = is_expired m now max_age in
      let kept = retained p m.transactions v.hashes in
      (
        rw (remove_expired-without now max_age m v) (without-IsValid p m v),
        kept,
        rw (kept, length-map rpc_hash (filter p m.transactions))
            (length-filter-not p m.transactions),
      )

  not-ltb : (a b : ℕ) → leb b a ≡ not (ltb a b)
  not-ltb a b = ground arith

  -- After the stale nonces of a valid pool are removed, the pool is valid and holds
  -- the transactions whose nonce has not been used, in their order.
  pub remove_stale_nonces_lem :
      (expected : Address → ℕ) (m : Mempool)
      → IsValid m
      → IsValid (remove_stale_nonces expected m)
        × ((remove_stale_nonces expected m).transactions
            ≡ filter (λ t. not (ltb t.nonce (expected t.from))) m.transactions)
  unfolding remove_stale_nonces without
  remove_stale_nonces_lem expected m v =
      let p : Transaction → Bool = λ t. ltb t.nonce (expected t.from) in
      let same : remove_stale_nonces expected m ≡ without p m =
        ap
          (λ (f : Transaction → Bool). record {
            transactions = filter f m.transactions;
            first_seen = forget (map rpc_hash (filter p m.transactions)) m.first_seen;
          })
          (fun_ext (λ t. not-ltb t.nonce (expected t.from))) in
      (rw same (without-IsValid p m v), ap (λ (n : Mempool). n.transactions) same)

  de_morgan : (a b : Bool) → (not a && not b) ≡ not (a || b)
  de_morgan a b = ground arith

  -- After the transactions of a block are removed from a valid pool, the pool is valid and
  -- holds the transactions that go by neither of their two hashes in the block's list.
  pub remove_included_lem :
      (hashes : List Hash256) (m : Mempool)
      → IsValid m
      → IsValid (remove_included hashes m)
        × ((remove_included hashes m).transactions
            ≡ filter (λ t. not (is_included hashes t)) m.transactions)
  unfolding remove_included is_included without
  remove_included_lem hashes m v =
      let same : remove_included hashes m ≡ without (is_included hashes) m =
        ap
          (λ (f : Transaction → Bool). record {
            transactions = filter f m.transactions;
            first_seen =
                forget (map rpc_hash (filter (is_included hashes) m.transactions)) m.first_seen;
          })
          (fun_ext (λ t.
            de_morgan (contains hashes (transaction_hash t)) (contains hashes (rpc_hash t)))) in
      (
        rw same (without-IsValid (is_included hashes) m v),
        ap (λ (n : Mempool). n.transactions) same,
      )
