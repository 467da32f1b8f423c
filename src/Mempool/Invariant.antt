-- ===== src/Mempool/Invariant.antt =====
-- What holds of a pool between calls, and the relations between its transactions.
use Prim.Native.Nat.{Ordering}
use blq_node.Base.{◌≤◌, ◌≡◌, ◌≢◌, true, false, none, arith, length, All, Pairwise}
use blq_node.Base.Bytes.{bytes_eq_iff}
use blq_node.Base.Sorting.{IsSorted, not_gt}
use blq_node.Base.Assoc.{lookup}
use blq_node.Externals.{Externals}
use blq_node.Primitives.{Transaction, rpc_hash}
use blq_node.Consensus.Validation.Sound.{IsAcceptable}
use blq_node.Mempool.{Mempool, fee_cmp, same_slot, same_hash}

-- A price above the floor, and the shape that consensus asks for.
abbrev pub IsPriced : Transaction → Type 0
IsPriced t = (1_000_000_000 ≤ t.max_fee_per_gas) × IsAcceptable t 0

module _ ⦃env : Externals⦄ where
  pub record IsValid (m : Mempool) : Type 0 where
    -- best fees first
    pub sorted : IsSorted fee_cmp m.transactions
    pub bounded : length m.transactions ≤ 5_000
    -- no two transactions have one sender and one nonce, or one hash
    pub slots : Pairwise (λ a b. same_slot a b ≡ false) m.transactions
    pub hashes : Pairwise (λ a b. same_hash a b ≡ false) m.transactions
    pub priced : All IsPriced m.transactions
    -- the time of arrival of each is known
    pub seen : All (λ t. lookup (rpc_hash t) m.first_seen ≢ none) m.transactions

  pub same_hash_symm : (a b : Transaction) → same_hash a b ≡ false → same_hash b a ≡ false
  unfolding same_hash
  same_hash_symm a b h =
      ground (arith, bytes_eq_iff (rpc_hash a) (rpc_hash b), bytes_eq_iff (rpc_hash b) (rpc_hash a))

pub same_slot_symm : (a b : Transaction) → same_slot a b ≡ false → same_slot b a ≡ false
unfolding same_slot
same_slot_symm a b h = ground (arith, bytes_eq_iff a.from b.from, bytes_eq_iff b.from a.from)

-- What is in the slot of an old transaction's replacement was in the old one's slot.
pub same_slot_trans :
    (t x y : Transaction) → same_slot t x ≡ true → same_slot x y ≡ false → same_slot t y ≡ false
unfolding same_slot
same_slot_trans t x y h k =
    ground
      (arith, bytes_eq_iff x.from t.from, bytes_eq_iff y.from x.from, bytes_eq_iff y.from t.from)

pub fee_cmp_total : (x y : Transaction) → fee_cmp x y ≡ Ordering.gt → not_gt (fee_cmp y x) ≡ true
unfolding fee_cmp
fee_cmp_total x y h = ground arith

pub fee_cmp_trans :
    (x y z : Transaction)
    → not_gt (fee_cmp x y) ≡ true
    → not_gt (fee_cmp y z) ≡ true
    → not_gt (fee_cmp x z) ≡ true
unfolding fee_cmp
fee_cmp_trans x y z h k = ground arith
