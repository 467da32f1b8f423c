-- ===== src/Mempool/Add.antt =====
-- `add` keeps the pool valid, never panics, and refuses without a change.
use blq_node.Base.{
  ℕ, ◌≡◌, ◌≢◌, false, arith, length, any, any-All, All, find, get_last?, ltb, leb, Bool-cases,
  Option-cases, inl, inr, Result-cases,
}
use blq_node.Base.Pairs.{find-none, All-drop_last, length-drop_last, get_last?-ne-none}
use blq_node.Externals.{Externals}
use blq_node.Primitives.{Transaction, Bix}
use blq_node.Consensus.Validation.{validate_transaction_fee}
use blq_node.Consensus.Validation.Sound.{IsAcceptable, validate_transaction_fee-IsAcceptable}
use blq_node.Mempool.{
  Mempool, added, panicked, same_slot, same_hash, outbid_by, evict, add_at_capacity, add_checked,
  add,
}
use blq_node.Mempool.Invariant.{IsPriced, IsValid}
use blq_node.Mempool.Steps.{append-IsValid, replace-IsValid, evict-IsValid}

-- An accepted fee stays acceptable under a base fee of 0.
IsAcceptable-at_zero : (t : Transaction) (b : Bix) → IsAcceptable t b → IsAcceptable t 0
IsAcceptable-at_zero t b a = record {
  chain = a.chain;
  known_type = a.known_type;
  legacy = a.legacy;
  payload = a.payload;
  entries = a.entries;
  entry_keys = a.entry_keys;
  keys = a.keys;
  covers = omega arith;
  priority = a.priority;
}

module _ ⦃env : Externals⦄ where
  add_at_capacity-IsValid :
      (t : Transaction) (now : ℕ) (m : Mempool)
      → IsValid m
      → IsPriced t
      → All (λ x. same_slot t x ≡ false) m.transactions
      → All (λ x. same_hash t x ≡ false) m.transactions
      → IsValid (add_at_capacity t now m).0
  unfolding add_at_capacity evict
  add_at_capacity-IsValid t now m v price slot hash =
      elim (Option-cases (get_last? m.transactions)) [
        | inl gone ↦ rw (gone, add_at_capacity) v
        | inr (l, e) ↦ elim (Bool-cases (outbid_by t l)) [
          | inl low ↦ rw (e, low, add_at_capacity) v
          | inr high ↦
              rw (e, high, add_at_capacity)
                (append-IsValid t now (evict l m) (evict-IsValid l m v e)
                  (omega (arith, v.bounded, length-drop_last m.transactions e)) price
                  (All-drop_last _ m.transactions slot) (All-drop_last _ m.transactions hash))
        ]
      ]

  add_checked-IsValid :
      (t : Transaction) (now : ℕ) (m : Mempool)
      → IsValid m
      → IsPriced t
      → All (λ x. same_hash t x ≡ false) m.transactions
      → IsValid (add_checked t now m).0
  unfolding add_checked
  add_checked-IsValid t now m v price hash =
      elim (Option-cases (find (same_slot t) m.transactions)) [
        | inl free ↦
            let slot = find-none (same_slot t) m.transactions free in
            elim (Bool-cases (leb 5_000 (length m.transactions))) [
              | inl full ↦
                  rw (free, full, add_checked) (add_at_capacity-IsValid t now m v price slot hash)
              | inr room ↦
                  rw (free, room, add_checked)
                    (append-IsValid t now m v (ground arith) price slot hash)
            ]
        | inr (x, e) ↦ elim (Bool-cases (leb t.max_fee_per_gas x.max_fee_per_gas)) [
          | inl low ↦ rw (e, low, add_checked) v
          | inr high ↦ rw (e, high, add_checked) (replace-IsValid t now m v price hash)
        ]
      ]

  -- Whatever is added, and however the call ends, a valid pool stays valid: sorted by fee, within
  -- its capacity, with one transaction for each sender and nonce and for each hash, each of them
  -- priced and shaped as consensus asks, and with a known time of arrival.
  pub add-IsValid :
      (t : Transaction) (b : Bix) (now : ℕ) (m : Mempool) → IsValid m → IsValid (add t b now m).0
  unfolding add
  add-IsValid t b now m v = elim (Bool-cases (ltb t.max_fee_per_gas 1_000_000_000)) [
    | inl low ↦ rw (low, add) v
    | inr enough ↦ elim (Result-cases (validate_transaction_fee t b)) [
      | inr (e, wrong) ↦ rw (enough, wrong, add) v
      | inl (u, fine) ↦ elim (Bool-cases (any (same_hash t) m.transactions)) [
        | inl known ↦ rw (enough, fine, known, add) v
        | inr fresh ↦
            let shape = (validate_transaction_fee-IsAcceptable t b).0 fine in
            rw (enough, fine, fresh, add)
              (add_checked-IsValid t now m v (ground arith, IsAcceptable-at_zero t b shape)
                ((any-All (same_hash t) m.transactions).0 fresh))
      ]
    ]
  ]

  -- `add` never runs into the `expect` on the last transaction, in any state.
  pub add-ne-panicked :
      (t : Transaction) (b : Bix) (now : ℕ) (m : Mempool) → (add t b now m).1 ≢ panicked
  unfolding add add_checked add_at_capacity
  add-ne-panicked t b now m = ground (arith, get_last?-ne-none m.transactions)

  -- A call that does not succeed leaves the pool as it was.
  pub add_refused :
      (t : Transaction) (b : Bix) (now : ℕ) (m : Mempool)
      → (add t b now m).1 ≢ added
      → (add t b now m).0 ≡ m
  unfolding add add_checked add_at_capacity
  add_refused t b now m = ground arith
