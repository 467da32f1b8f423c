-- ===== src/Consensus/Validation/Sound.antt =====
-- What validation accepts, as conditions that name no order of checks.
use blq_node.Base.{
  ◌+◌, ◌≤◌, ◌<◌, ◌≡◌, ◌↔◌, refl, true, false, List, [], ◌∷◌, arith, length, any, All, any-All,
  All-imp, sum_of, ltb, u64_max, ok, >>=-eq-ok,
}
use blq_node.Base.Bytes.{be_value, bytes_cmp-be_value}
use blq_node.Externals.{Externals, IsHash}
use blq_node.Primitives.{Bix, Hash256, BlockHeader, Transaction, is_empty}
use blq_node.Pow.{blq_rx_hash}
use blq_node.Pow.Preimage.{HasPowFields, validate_pow_fields-HasPowFields, final_hash-IsHash}
use blq_node.Consensus.Validation.{
  satisfies_pow, validate_transaction_fee, validate_transactions, validate_header_with_genesis,
}

-- The shape and the fees that consensus asks of a transaction.
pub record IsAcceptable (t : Transaction) (base_fee : Bix) : Type 0 where
  pub chain : t.chain_id ≡ 707_070
  pub known_type : t.transaction_type ≤ 2
  pub legacy : t.transaction_type ≡ 0 → t.access_list ≡ []
  pub payload : length t.payload ≤ 131_072
  pub entries : length t.access_list ≤ 256
  pub entry_keys : All (λ item. length item.storage_keys ≤ 1_024) t.access_list
  pub keys : sum_of (λ item. length item.storage_keys) t.access_list ≤ 4_096
  pub covers : base_fee ≤ t.max_fee_per_gas
  pub priority : t.max_priority_fee_per_gas ≤ t.max_fee_per_gas

keys_bounded :
    (t : Transaction)
    → (any (λ item. ltb 1_024 (length item.storage_keys)) t.access_list ≡ false)
      ↔ All (λ item. length item.storage_keys ≤ 1_024) t.access_list
keys_bounded t =
    let (to, from) = any-All (λ item. ltb 1_024 (length item.storage_keys)) t.access_list in
    (
      (λ h. All-imp (λ item e. ground arith) t.access_list (to h)),
      (λ h. from (All-imp (λ item e. ground arith) t.access_list h)),
    )

is_empty_iff : {A : Type 0} (xs : List A) → (is_empty xs ≡ true) ↔ (xs ≡ [])
is_empty_iff [] = ground arith
is_empty_iff (x ∷ xs) = ground arith

-- The checks as they are written, each of them passed.
checks_passed :
    (t : Transaction) (base_fee : Bix)
    → (validate_transaction_fee t base_fee ≡ ok tt)
      ↔ (t.chain_id ≡ 707_070)
        × (t.transaction_type ≤ 2)
        × (t.transaction_type ≡ 0 → t.access_list ≡ [])
        × (length t.payload ≤ 131_072)
        × (length t.access_list ≤ 256)
        × (any (λ item. ltb 1_024 (length item.storage_keys)) t.access_list ≡ false)
        × (sum_of (λ item. length item.storage_keys) t.access_list ≤ 4_096)
        × (base_fee ≤ t.max_fee_per_gas)
        × (t.max_priority_fee_per_gas ≤ t.max_fee_per_gas)
unfolding validate_transaction_fee
checks_passed t base_fee = ground (arith, is_empty_iff t.access_list)

-- The fee check accepts a transaction exactly if its chain, type, sizes and fees are acceptable.
pub validate_transaction_fee-IsAcceptable :
    (t : Transaction) (base_fee : Bix)
    → (validate_transaction_fee t base_fee ≡ ok tt) ↔ IsAcceptable t base_fee
validate_transaction_fee-IsAcceptable t base_fee =
    let (read, build) = checks_passed t base_fee in
    let (bound, within) = keys_bounded t in
    (
      (λ h.
          let (chain, kind, legacy, payload, entries, each, keys, covers, priority) = read h in
          record {
            chain = chain;
            known_type = kind;
            legacy = legacy;
            payload = payload;
            entries = entries;
            entry_keys = bound each;
            keys = keys;
            covers = covers;
            priority = priority;
          }),
      (λ a. build (
        a.chain,
        a.known_type,
        a.legacy,
        a.payload,
        a.entries,
        within a.entry_keys,
        a.keys,
        a.covers,
        a.priority,
      )),
    )

pub validate_transactions-All :
    (ts : List Transaction) (base_fee : Bix)
    → (validate_transactions ts base_fee ≡ ok tt) ↔ All (λ t. IsAcceptable t base_fee) ts
unfolding validate_transactions
validate_transactions-All [] base_fee = ((λ h. tt), (λ h. refl))
validate_transactions-All (t ∷ ts) base_fee =
    let (read, build) = validate_transaction_fee-IsAcceptable t base_fee in
    let (reads, builds) = validate_transactions-All ts base_fee in
    (
      (λ h.
          let (u, first, rest) =
            >>=-eq-ok (validate_transaction_fee t base_fee) (λ _. validate_transactions ts base_fee)
              h in
          (read first, reads rest)),
      (λ h. rw (build h.0) (builds h.1)),
    )

-- Among digests, `satisfies_pow` is the order of the numbers that they spell.
pub satisfies_pow-le :
    (hash target : Hash256)
    → IsHash hash
    → IsHash target
    → (satisfies_pow hash target ≡ true) ↔ (be_value hash ≤ be_value target)
unfolding satisfies_pow
satisfies_pow-le hash target (n, b) (m, c) =
    ground (arith, bytes_cmp-be_value hash target (omega arith) b c)

module _ ⦃env : Externals⦄ where
  pub record IsChild (parent child : BlockHeader) (genesis_hash : Hash256) : Type 0 where
    pub number : child.number ≡ parent.number + 1
    pub timestamp : parent.timestamp_seconds < child.timestamp_seconds
    pub gas : child.gas_used ≤ child.gas_limit
    pub pow_fields : HasPowFields child genesis_hash
    pub work :
        be_value (blq_rx_hash child genesis_hash).final_hash ≤ be_value child.difficulty_target

  -- Where the parent is not the last block number and the child's target is a digest, a header
  -- passes validation exactly if it is a child of its parent: the next number, a later timestamp,
  -- gas within its limit, the fields of the proof of work, and the work itself.
  pub validate_header-IsChild :
      (parent child : BlockHeader) (genesis_hash : Hash256)
      → parent.number < u64_max
      → IsHash child.difficulty_target
      → (validate_header_with_genesis parent child genesis_hash ≡ ok tt)
        ↔ IsChild parent child genesis_hash
  unfolding validate_header_with_genesis
  validate_header-IsChild parent child g last target = ground (
    arith,
    validate_pow_fields-HasPowFields child g,
    satisfies_pow-le (blq_rx_hash child g).final_hash child.difficulty_target
        (final_hash-IsHash child g) target,
  )
