-- ===== src/Mempool.antt =====
-- crates/blq-mempool/src/lib.rs: the pool of pending transactions. The wall clock is an argument:
-- `now` is what `now_seconds` reads during the call.
pub mod Invariant
pub mod Steps
pub mod Add
pub mod Operations
pub mod Persistence
pub mod Selection
mod Examples
use Prim.Native.Nat.{compare, Ordering}
use blq_node.Base.{
  ℕ, ◌+◌, ◌-◌, Bool, true, false, not, ◌&&◌, ◌||◌, ltb, leb, ◌==◌, if◌then◌else◌, List, [], ◌∷◌,
  ◌++◌, Option, some, none, length, any, find, get_last?, drop_last, Result, ok, err,
}
use blq_node.Base.Bytes.{bytes_eq, then_cmp}
use blq_node.Base.Sorting.{sort_by}
use blq_node.Base.Assoc.{lookup, insert, remove}
use blq_node.Externals.{Externals}
use blq_node.Primitives.{Hash256, Bix, Transaction, rpc_hash}
use blq_node.Consensus.Validation.{ConsensusError, validate_transaction_fee}

abbrev pub max_mempool_transactions : ℕ
max_mempool_transactions = 5_000

abbrev pub min_gas_price_bix : ℕ
min_gas_price_bix = 1_000_000_000

pub data MempoolError : Type 0 where
  consensus : ConsensusError → MempoolError
  replacement_fee_too_low mempool_full fee_too_low : MempoolError

-- How a call of `add` ends; `panicked` is the `expect` on the last transaction.
pub data AddResult : Type 0 where
  added : AddResult
  refused : MempoolError → AddResult
  panicked : AddResult

pub record Mempool : Type 0 where
  pub transactions : List Transaction
  pub first_seen : List (Hash256 × ℕ)

abbrev pub empty_mempool : Mempool
empty_mempool = record { transactions = []; first_seen = [] }

-- The order of `sort_by_fee`: the higher priority fee first, then the higher maximum fee.
pub fee_cmp : Transaction → Transaction → Ordering
fee_cmp a b =
    then_cmp (compare b.max_priority_fee_per_gas a.max_priority_fee_per_gas)
      (compare b.max_fee_per_gas a.max_fee_per_gas)

pub sort_by_fee : List Transaction → List Transaction
sort_by_fee transactions = sort_by fee_cmp transactions

-- One sender's transactions of one nonce.
pub same_slot : Transaction → Transaction → Bool
same_slot t existing = bytes_eq existing.from t.from && (existing.nonce == t.nonce)

-- `*existing = transaction`, at the first one in its slot.
pub replace_slot : Transaction → List Transaction → List Transaction
replace_slot t [] = []
replace_slot t (x ∷ xs) = if same_slot t x then t ∷ xs else x ∷ replace_slot t xs

-- `new_priority <= lowest_priority`, on pairs.
pub outbid_by : Transaction → Transaction → Bool
outbid_by t lowest =
    ltb t.max_priority_fee_per_gas lowest.max_priority_fee_per_gas
    || ((t.max_priority_fee_per_gas == lowest.max_priority_fee_per_gas)
        && leb t.max_fee_per_gas lowest.max_fee_per_gas)

module _ ⦃env : Externals⦄ where
  pub same_hash : Transaction → Transaction → Bool
  same_hash t existing = bytes_eq (rpc_hash existing) (rpc_hash t)

  pub replace : Transaction → ℕ → Mempool → Mempool
  replace t now m = record {
    transactions = sort_by_fee (replace_slot t m.transactions);
    first_seen = insert (rpc_hash t) now m.first_seen;
  }

  -- `push`, the entry and the sort.
  pub append : Transaction → ℕ → Mempool → Mempool
  append t now m = record {
    transactions = sort_by_fee (m.transactions ++ (t ∷ []));
    first_seen = insert (rpc_hash t) now m.first_seen;
  }

  -- `pop` and what goes with it.
  pub evict : Transaction → Mempool → Mempool
  evict lowest m = record {
    transactions = drop_last m.transactions;
    first_seen = remove (rpc_hash lowest) m.first_seen;
  }

  pub add_at_capacity : Transaction → ℕ → Mempool → Mempool × AddResult
  add_at_capacity t now m = elim (get_last? m.transactions) [
    | none ↦ (m, panicked)
    | some lowest ↦
        if outbid_by t lowest
        then (m, refused mempool_full)
        else (append t now (evict lowest m), added)
  ]

  -- The part of `add` behind the fee checks and the test for a known hash.
  pub add_checked : Transaction → ℕ → Mempool → Mempool × AddResult
  add_checked t now m = elim (find (same_slot t) m.transactions) [
    | some existing ↦
        if leb t.max_fee_per_gas existing.max_fee_per_gas
        then (m, refused replacement_fee_too_low)
        else (replace t now m, added)
    | none ↦
        if leb max_mempool_transactions (length m.transactions)
        then add_at_capacity t now m
        else (append t now m, added)
  ]

  pub add : Transaction → Bix → ℕ → Mempool → Mempool × AddResult
  add t base_fee_per_gas now m =
      if ltb t.max_fee_per_gas min_gas_price_bix
      then (m, refused fee_too_low)
      else elim (validate_transaction_fee t base_fee_per_gas) [
        | err e ↦ (m, refused (consensus e))
        | ok _ ↦ if any (same_hash t) m.transactions then (m, added) else add_checked t now m
      ]
