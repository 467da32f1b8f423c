-- ===== src/Mempool/Operations/Chain.antt =====
-- What `has_nonce_chain` tests.
use mathlib.Core.Path.{subst}
use blq_node.Base.{
  ℕ, zero, suc, ◌+◌, ◌-◌, ◌≤◌, ◌<◌, ◌≡◌, ◌↔◌, refl, sym, true, ◌&&◌, ◌==◌, arith, any, List,
  Bool-cases, inl, inr,
}
use blq_node.Base.Bytes.{bytes_eq}
use blq_node.Primitives.{Address, Transaction}
use blq_node.Mempool.{Mempool}
use blq_node.Mempool.Operations.{chain_holds, has_nonce_chain}

-- A transaction of the sender with the nonce is in the list.
abbrev pub IsPending : Address → List Transaction → ℕ → Type 0
IsPending from ts nonce = any (λ t. bytes_eq t.from from && (t.nonce == nonce)) ts ≡ true

chain_holds-all :
    (left start : ℕ) (from : Address) (ts : List Transaction)
    → chain_holds left start from ts ≡ true
    → (nonce : ℕ) → start ≤ nonce
    → nonce < start + left
    → IsPending from ts nonce
unfolding chain_holds
chain_holds-all zero start from ts h nonce low high = absurd (omega arith)
chain_holds-all (suc left) start from ts h nonce low high =
    let first : IsPending from ts start = ground arith in
    let rest : chain_holds left (start + 1) from ts ≡ true = ground arith in
    elim (Bool-cases (nonce == start)) [
      | inl here ↦
          let same : nonce ≡ start = ground arith in subst (IsPending from ts) (sym same) first
      | inr later ↦ chain_holds-all left (start + 1) from ts rest nonce (ground arith) (omega arith)
    ]

all-chain_holds :
    (left start : ℕ) (from : Address) (ts : List Transaction)
    → ((nonce : ℕ) → start ≤ nonce → nonce < start + left → IsPending from ts nonce)
    → chain_holds left start from ts ≡ true
unfolding chain_holds
all-chain_holds zero start from ts all = refl
all-chain_holds (suc left) start from ts all =
    rw (all start (omega arith) (omega arith))
      (all-chain_holds left (start + 1) from ts (λ n low high. all n (omega arith) (omega arith)))

-- The test holds exactly where the pool has, for each nonce from the start up to but not including
-- the target, a transaction of the sender with that nonce.
pub has_nonce_chain_iff :
    (m : Mempool) (from : Address) (start target : ℕ)
    → (has_nonce_chain m from start target ≡ true)
      ↔ ((nonce : ℕ) → start ≤ nonce → nonce < target → IsPending from m.transactions nonce)
unfolding has_nonce_chain
has_nonce_chain_iff m from start target = (
  λ h nonce low high.
      chain_holds-all (target - start) start from m.transactions h nonce low (omega arith),
  λ all.
      all-chain_holds (target - start) start from m.transactions
        (λ n low high. all n low (omega arith)),
)
