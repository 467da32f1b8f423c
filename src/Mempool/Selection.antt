-- ===== src/Mempool/Selection.antt =====
-- crates/blq-mempool/src/lib.rs, `drain_for_block`. The comparator that it sorts with is no total
-- order, and what `sort_by` does with such a comparator is not specified: the sort is an argument,
-- of which only is asked that it gives back the items it was given.
use mathlib.Core.Path.{subst}
use Prim.Native.Nat.{compare, Ordering}
use blq_node.Base.{
  ℕ, ◌+◌, ◌<◌, ◌≤◌, ◌≡◌, refl, sym, true, false, List, [], ◌∷◌, arith, ltb, if◌then◌else◌, map, All,
  All-imp, sum_of, saturating_add_u64, u64_max, Bool-cases, inl, inr, ◌⊎◌,
}
use blq_node.Base.Bytes.{bytes_eq, bytes_eq_refl, then_cmp}
use blq_node.Externals.{Externals}
use blq_node.Primitives.{Transaction, rpc_hash}
use blq_node.Mempool.{Mempool}
use blq_node.Mempool.Operations.{contains}

-- One sender's transactions by nonce, those of two senders by their fees.
pub drain_cmp : Transaction → Transaction → Ordering
drain_cmp a b =
    if bytes_eq a.from b.from
    then compare a.nonce b.nonce
    else then_cmp (compare b.max_priority_fee_per_gas a.max_priority_fee_per_gas)
        (compare b.max_fee_per_gas a.max_fee_per_gas)

-- The loop over the candidates, from the gas taken so far.
pub take_within : ℕ → ℕ → List Transaction → List Transaction
take_within gas limit [] = []
take_within gas limit (t ∷ ts) =
    let total = saturating_add_u64 gas t.gas_limit in
    let skipped = take_within gas limit ts in
    let taken = take_within total limit ts in if ltb limit total then skipped else t ∷ taken

pub drain_for_block :
    ((Transaction → Transaction → Ordering) → List Transaction → List Transaction)
    → Mempool
    → ℕ
    → List Transaction
drain_for_block sort m gas_limit = take_within 0 gas_limit (sort drain_cmp m.transactions)

-- Two transactions of one sender, and one of another sender whose priority fee lies between theirs
-- where the lower nonce pays less: the comparator orders the three in a circle.
pub drain_cmp-cycles :
    (a b c : Transaction)
    → bytes_eq a.from b.from ≡ true
    → bytes_eq b.from c.from ≡ false
    → bytes_eq c.from a.from ≡ false
    → a.nonce < b.nonce
    → a.max_priority_fee_per_gas < c.max_priority_fee_per_gas
    → c.max_priority_fee_per_gas < b.max_priority_fee_per_gas
    → (drain_cmp a b ≡ Ordering.lt) × (drain_cmp b c ≡ Ordering.lt) × (drain_cmp c a ≡ Ordering.lt)
unfolding drain_cmp
drain_cmp-cycles a b c same other third nonces low high = ground arith

take_within-skip :
    (gas limit : ℕ) (t : Transaction) (ts : List Transaction)
    → ltb limit (saturating_add_u64 gas t.gas_limit) ≡ true
    → take_within gas limit (t ∷ ts) ≡ take_within gas limit ts
unfolding take_within
take_within-skip gas limit t ts h = ground arith

take_within-take :
    (gas limit : ℕ) (t : Transaction) (ts : List Transaction)
    → ltb limit (saturating_add_u64 gas t.gas_limit) ≡ false
    → limit < u64_max
    → take_within gas limit (t ∷ ts) ≡ t ∷ take_within (gas + t.gas_limit) limit ts
unfolding take_within
take_within-take gas limit t ts h k =
    let exact : saturating_add_u64 gas t.gas_limit ≡ gas + t.gas_limit = ground arith in
    rw (h, exact) refl

take_within-bound :
    (gas limit : ℕ) (ts : List Transaction)
    → limit < u64_max
    → gas ≤ limit
    → gas + sum_of (λ t. t.gas_limit) (take_within gas limit ts) ≤ limit
unfolding take_within
take_within-bound gas limit [] h k = omega arith
take_within-bound gas limit (t ∷ ts) h k =
    ground
      (arith, take_within-bound gas limit ts h k, take_within-bound (gas + t.gas_limit) limit ts h)

All-take_within :
    (P : Transaction → Type 0) (gas limit : ℕ) (ts : List Transaction)
    → All P ts
    → All P (take_within gas limit ts)
unfolding take_within
All-take_within P gas limit [] h = tt
All-take_within P gas limit (t ∷ ts) h = ground (
  arith,
  All-take_within P gas limit ts h.1,
  All-take_within P (saturating_add_u64 gas t.gas_limit) limit ts h.1,
)

module _ ⦃env : Externals⦄ where
  -- Chosen, or without room beside what is chosen.
  abbrev pub IsSettled : ℕ → ℕ → List Transaction → Transaction → Type 0
  IsSettled gas limit chosen t =
      (contains (map rpc_hash chosen) (rpc_hash t) ≡ true)
      ⊎ (limit < gas + sum_of (λ o. o.gas_limit) chosen + t.gas_limit)

  IsSettled-behind :
      (x t : Transaction) (gas limit : ℕ) (chosen : List Transaction)
      → IsSettled (gas + x.gas_limit) limit chosen t
      → IsSettled gas limit (x ∷ chosen) t
  unfolding contains
  IsSettled-behind x t gas limit chosen (inl known) = inl (ground arith)
  IsSettled-behind x t gas limit chosen (inr full) = inr (omega arith)

  take_within-IsSettled :
      (gas limit : ℕ) (ts : List Transaction)
      → limit < u64_max
      → gas ≤ limit
      → All (IsSettled gas limit (take_within gas limit ts)) ts
  unfolding take_within contains
  take_within-IsSettled gas limit [] h k = tt
  take_within-IsSettled gas limit (t ∷ ts) h k =
      let total : ℕ = saturating_add_u64 gas t.gas_limit in
      let Settled : List Transaction → Type 0 =
        λ chosen. All (IsSettled gas limit chosen) (t ∷ ts) in
      elim (Bool-cases (ltb limit total)) [
        | inl full ↦
            let rest = take_within-IsSettled gas limit ts h k in
            let chosen : List Transaction = take_within gas limit ts in
            let over : limit < gas + sum_of (λ o. o.gas_limit) chosen + t.gas_limit =
              ground arith in
            subst Settled (sym (take_within-skip gas limit t ts full)) (inr over, rest)
        | inr room ↦
            let exact : total ≡ gas + t.gas_limit = ground arith in
            let rest = take_within-IsSettled (gas + t.gas_limit) limit ts h (ground arith) in
            let chosen : List Transaction = take_within (gas + t.gas_limit) limit ts in
            subst Settled (sym (take_within-take gas limit t ts room h)) (
              inl (ground (arith, bytes_eq_refl (rpc_hash t))),
              All-imp (λ x. IsSettled-behind t x gas limit chosen) ts rest,
            )
      ]

  -- Below the largest `u64`, the chosen transactions fit the block's gas together, they all come
  -- from the pool, and one that is left out would not fit beside the chosen ones. This holds
  -- for every sort that gives back the items it is given.
  pub drain_for_block_lem :
      (sort : (Transaction → Transaction → Ordering) → List Transaction → List Transaction)
      → ((P : Transaction → Type 0) (xs : List Transaction)
          → (All P xs → All P (sort drain_cmp xs)) × (All P (sort drain_cmp xs) → All P xs))
      → (m : Mempool) (limit : ℕ) → limit < u64_max
      → (sum_of (λ t. t.gas_limit) (drain_for_block sort m limit) ≤ limit)
        × ((P : Transaction → Type 0) → All P m.transactions → All P (drain_for_block sort m limit))
        × All (IsSettled 0 limit (drain_for_block sort m limit)) m.transactions
  unfolding drain_for_block
  drain_for_block_lem sort perm m limit h =
      let candidates : List Transaction = sort drain_cmp m.transactions in
      (
        omega (arith, take_within-bound 0 limit candidates h (omega arith)),
        λ P all. All-take_within P 0 limit candidates ((perm P m.transactions).0 all),
        (perm _ m.transactions).1 (take_within-IsSettled 0 limit candidates h (omega arith)),
      )
