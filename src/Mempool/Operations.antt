-- ===== src/Mempool/Operations.antt =====
-- The operations of the pool beside `add`.
pub mod Chain
pub mod Invariant
use blq_node.Base.{
  ℕ, zero, suc, ◌+◌, ◌-◌, Bool, true, false, not, ◌&&◌, ◌||◌, ltb, leb, ◌==◌, if◌then◌else◌, List,
  [], ◌∷◌, Option, some, none, length, any, filter, map, saturating_sub, saturating_add_u64,
}
use blq_node.Base.Bytes.{bytes_eq}
use blq_node.Base.Assoc.{lookup, insert, remove}
use blq_node.Externals.{Externals}
use blq_node.Primitives.{Hash256, Address, Bix, Transaction, rpc_hash, transaction_hash}
use blq_node.Mempool.{Mempool, AddResult, added, refused, panicked, add, empty_mempool}

-- `slice::contains`.
unfoldable pub contains : List Hash256 → Hash256 → Bool
contains hashes hash = any (λ h. bytes_eq h hash) hashes

abbrev pub unwrap_or : {A : Type 0} → Option A → A → A
unwrap_or none d = d
unwrap_or (some a) d = a

-- The loop over the removed hashes.
pub forget : List Hash256 → List (Hash256 × ℕ) → List (Hash256 × ℕ)
forget [] seen = seen
forget (hash ∷ hashes) seen = forget hashes (remove hash seen)

-- `(start..target).all(...)`, over the nonces that are left.
pub chain_holds : ℕ → ℕ → Address → List Transaction → Bool
chain_holds zero nonce from ts = true
chain_holds (suc left) nonce from ts =
    any (λ t. bytes_eq t.from from && (t.nonce == nonce)) ts && chain_holds left (nonce + 1) from ts

pub has_nonce_chain : Mempool → Address → ℕ → ℕ → Bool
unfolding chain_holds
has_nonce_chain m from start target = chain_holds (target - start) start from m.transactions

module _ ⦃env : Externals⦄ where
  pub age : Mempool → ℕ → Transaction → ℕ
  age m now t = saturating_sub now (unwrap_or (lookup (rpc_hash t) m.first_seen) now)

  pub pending_with_age : Mempool → ℕ → List (Transaction × ℕ)
  pending_with_age m now = map (λ t. (t, age m now t)) m.transactions

  pub remove_expired : ℕ → ℕ → Mempool → Mempool × ℕ
  remove_expired now max_age_seconds m =
      let removed = map rpc_hash (filter (λ t. leb max_age_seconds (age m now t)) m.transactions) in
      (
        record {
          transactions = filter (λ t. not (contains removed (rpc_hash t))) m.transactions;
          first_seen = forget removed m.first_seen;
        },
        length removed,
      )

  -- The expected nonce of a sender, which the caller reads from the state, is an argument.
  pub remove_stale_nonces : (Address → ℕ) → Mempool → Mempool
  remove_stale_nonces expected_nonce m =
      let removed =
        map rpc_hash (filter (λ t. ltb t.nonce (expected_nonce t.from)) m.transactions) in
      record {
        transactions = filter (λ t. leb (expected_nonce t.from) t.nonce) m.transactions;
        first_seen = forget removed m.first_seen;
      }

  pub is_included : List Hash256 → Transaction → Bool
  is_included hashes t = contains hashes (transaction_hash t) || contains hashes (rpc_hash t)

  pub remove_included : List Hash256 → Mempool → Mempool
  remove_included hashes m =
      let removed = map rpc_hash (filter (is_included hashes) m.transactions) in
      record {
        transactions =
            filter
              (λ t.
                not (contains hashes (transaction_hash t)) && not (contains hashes (rpc_hash t)))
              m.transactions;
        first_seen = forget removed m.first_seen;
      }
