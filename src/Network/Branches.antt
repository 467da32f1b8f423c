-- ===== src/Network/Branches.antt =====
-- crates/blq-network/src/lib.rs: the tips of branches and the work behind them.
pub mod Order
pub mod Work
mod Examples
use Prim.Native.Nat.{compare, Ordering}
use blq_node.Base.{
  ℕ, ◌+◌, Bool, true, false, ◌&&◌, ltb, ◌==◌, if◌then◌else◌, max, not, saturating_add_u64,
  saturating_add_u128, u128_max,
}
use blq_node.Base.Bytes.{bytes_eq, bytes_cmp, then_cmp}
use blq_node.Externals.{U256}
use blq_node.Primitives.{Hash256, hash_max}

abbrev pub u256_max : ℕ
u256_max = 0xffff_ffff_ffff_ffff_ffff_ffff_ffff_ffff_ffff_ffff_ffff_ffff_ffff_ffff_ffff_ffff

pub record BranchTip : Type 0 where
  pub height : ℕ
  pub hash : Hash256
  pub difficulty_target : Hash256
  pub cumulative_work : ℕ

module _ ⦃words : U256⦄ where
  -- The quotient of `U256::MAX + 1`, from that of `U256::MAX`.
  pub whole_quotient : ℕ → ℕ
  whole_quotient denominator =
      let quotient = words.div u256_max denominator in
      if (words.rem u256_max denominator == words.sub denominator 1) && not (quotient == u256_max)
      then words.add quotient 1
      else quotient

  pub work_for_target : Hash256 → ℕ
  work_for_target target =
      if bytes_eq target hash_max
      then 1
      else let quotient = whole_quotient (words.add (words.from_be_bytes target) 1) in
        if ltb u128_max quotient then u128_max else max quotient 1

  pub new_tip : ℕ → Hash256 → Hash256 → BranchTip
  new_tip height hash difficulty_target = record {
    height = height;
    hash = hash;
    difficulty_target = difficulty_target;
    cumulative_work = work_for_target difficulty_target;
  }

  pub extend : BranchTip → Hash256 → Hash256 → BranchTip
  extend tip hash difficulty_target = record {
    height = saturating_add_u64 tip.height 1;
    hash = hash;
    difficulty_target = difficulty_target;
    cumulative_work = saturating_add_u128 tip.cumulative_work (work_for_target difficulty_target);
  }

-- The order of the triples, the hash reversed.
pub branch_cmp : BranchTip → BranchTip → Ordering
branch_cmp a b =
    then_cmp (compare a.cumulative_work b.cumulative_work)
      (then_cmp (compare a.height b.height) (bytes_cmp b.hash a.hash))

pub better_branch : BranchTip → BranchTip → Bool
better_branch candidate current = elim (branch_cmp candidate current) [
  | Ordering.gt ↦ true
  | Ordering.eq ↦ false
  | Ordering.lt ↦ false
]
