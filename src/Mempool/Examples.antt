-- ===== src/Mempool/Examples.antt =====
-- The theorems of the pool at concrete transactions.
use Prim.Native.Nat.{Ordering}
use blq_node.Base.{
  ℕ, ◌≤◌, ◌<◌, ◌≡◌, ◌↔◌, refl, arith, some, true, [], ◌∷◌, ok, All, sum_of, replicate,
}
use blq_node.Base.Bytes.{bytes_eq}
use blq_node.Base.Sorting.{sort_by, All-sort_by, All-of_sort_by}
use blq_node.Base.Assoc.{lookup}
use blq_node.Primitives.{Transaction}
use blq_node.Primitives.Encoding.{rpc_hash}
use blq_node.Consensus.Validation.{validate_transaction_fee}
use blq_node.Consensus.Validation.Sound.{validate_transaction_fee-IsAcceptable}
use blq_node.Mempool.{Mempool, add, fee_cmp, same_slot, same_hash}
use blq_node.Mempool.Invariant.{IsValid}
use blq_node.Mempool.Add.{add-IsValid, add_refused}
use blq_node.Mempool.Operations.{has_nonce_chain}
use blq_node.Mempool.Operations.Chain.{IsPending, has_nonce_chain_iff}
use blq_node.Mempool.Persistence.{load, save}
use blq_node.Mempool.Persistence.RoundTrip.{load-save}
use blq_node.Mempool.Selection.{
  drain_cmp, drain_for_block, drain_cmp-cycles, IsSettled, drain_for_block_lem,
}
use blq_node.Samples.{sample_env, alice, bob, payment}

abbrev first : Transaction
first = payment alice 4 2_000_000_000 (replicate 32 9)

abbrev second : Transaction
second = payment bob 1 1_000_000_000 (replicate 32 8)

abbrev pool : Mempool
pool = record {
  transactions = first ∷ second ∷ [];
  first_seen = (replicate 32 9, 100) ∷ (replicate 32 8, 250) ∷ [];
}

first_fine : validate_transaction_fee first 0 ≡ ok tt
unfolding validate_transaction_fee
first_fine = refl

second_fine : validate_transaction_fee second 0 ≡ ok tt
unfolding validate_transaction_fee
second_fine = refl

pool-IsValid : IsValid ⦃env = sample_env⦄ pool
unfolding fee_cmp same_slot same_hash rpc_hash bytes_eq lookup
pool-IsValid = record {
  sorted = ((refl, tt), (tt, tt));
  bounded = omega arith;
  slots = ((refl, tt), (tt, tt));
  hashes = ((refl, tt), (tt, tt));
  priced = (
    (omega arith, (validate_transaction_fee-IsAcceptable first 0).0 first_fine),
    ((omega arith, (validate_transaction_fee-IsAcceptable second 0).0 second_fine), tt),
  );
  seen = ((λ e. cc), ((λ e. cc), tt));
}

add-IsValid_example :
    IsValid ⦃env = sample_env⦄
      (add ⦃env = sample_env⦄ (payment bob 2 7 (replicate 32 7)) 10 300 pool).0
add-IsValid_example =
    add-IsValid ⦃env = sample_env⦄ (payment bob 2 7 (replicate 32 7)) 10 300 pool pool-IsValid

add_refused_example : (add ⦃env = sample_env⦄ (record first { chain_id = 1 }) 10 300 pool).0 ≡ pool
unfolding add validate_transaction_fee
add_refused_example =
    add_refused ⦃env = sample_env⦄ (record first { chain_id = 1 }) 10 300 pool (λ e. cc)

has_nonce_chain_iff_example :
    (has_nonce_chain pool alice 4 5 ≡ true)
    ↔ ((nonce : ℕ) → 4 ≤ nonce → nonce < 5 → IsPending alice pool.transactions nonce)
has_nonce_chain_iff_example = has_nonce_chain_iff pool alice 4 5

load-save_example :
    ((load ⦃env = sample_env⦄ (some (save ⦃env = sample_env⦄ pool 400)) 0 500).transactions
      ≡ pool.transactions)
    × All
        (λ t.
          lookup
            (rpc_hash ⦃env = sample_env⦄ t)
            (load ⦃env = sample_env⦄ (some (save ⦃env = sample_env⦄ pool 400)) 0 500).first_seen
          ≡ lookup (rpc_hash ⦃env = sample_env⦄ t) pool.first_seen)
        pool.transactions
load-save_example =
    load-save ⦃env = sample_env⦄ pool 0 400 500 pool-IsValid (first_fine, (second_fine, tt))

drain_for_block_lem_example :
    (sum_of (λ t. t.gas_limit) (drain_for_block sort_by pool 30_000) ≤ 30_000)
    × ((P : Transaction → Type 0)
        → All P pool.transactions
        → All P (drain_for_block sort_by pool 30_000))
    × All
        (IsSettled ⦃env = sample_env⦄ 0 30_000 (drain_for_block sort_by pool 30_000))
        pool.transactions
drain_for_block_lem_example =
    drain_for_block_lem ⦃env = sample_env⦄ sort_by
      (λ P xs. (All-sort_by drain_cmp P xs, All-of_sort_by drain_cmp P xs)) pool 30_000
      (omega arith)

drain_cmp-cycles_example :
    (drain_cmp (payment alice 4 1 alice) (payment alice 5 9 alice) ≡ Ordering.lt)
    × (drain_cmp (payment alice 5 9 alice) (payment bob 0 5 alice) ≡ Ordering.lt)
    × (drain_cmp (payment bob 0 5 alice) (payment alice 4 1 alice) ≡ Ordering.lt)
unfolding bytes_eq
drain_cmp-cycles_example =
    drain_cmp-cycles (payment alice 4 1 alice) (payment alice 5 9 alice) (payment bob 0 5 alice)
      refl refl refl (omega arith) (omega arith) (omega arith)
