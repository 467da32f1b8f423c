-- ===== src/Consensus/Fees.antt =====
-- Fees and issuance (crates/blq-consensus/src/lib.rs).
pub mod Split
pub mod Issuance
pub mod BaseFee
use blq_node.Base.{
  ℕ, ◌+◌, ◌-◌, ◌*◌, ◌/◌, ◌%◌, ltb, ◌==◌, if◌then◌else◌, min, max, u8_mod, mul_u128,
  saturating_mul_u64, saturating_mul_u128, saturating_add_u128, saturating_sub,
}
use blq_node.Primitives.{
  Bix, BlockHeader, blq_issuance_per_interval_bix, difficulty_adjustment_interval,
  max_reward_interval_seconds, max_utilization_basis_points, max_burn_percent, min_burn_percent,
  eip1559_elasticity_multiplier, eip1559_base_fee_max_change_denominator,
}

pub record FeeSplit : Type 0 where
  pub burn_percent : ℕ
  pub miner_percent : ℕ

-- What is burned, and what the miner gets.
pub split_fee : FeeSplit → Bix → Bix × Bix
split_fee split fee =
    let burn = saturating_mul_u128 fee split.burn_percent / 100 in (burn, saturating_sub fee burn)

pub block_subsidy_bix : Bix
block_subsidy_bix = blq_issuance_per_interval_bix / difficulty_adjustment_interval

pub issuance_interval_remainder_bix : Bix
issuance_interval_remainder_bix = blq_issuance_per_interval_bix % difficulty_adjustment_interval

pub block_reward_bix : ℕ → Bix
unfolding block_subsidy_bix issuance_interval_remainder_bix
block_reward_bix block_number =
    if block_number == 0
    then 0
    else if block_number % difficulty_adjustment_interval == 0
    then saturating_add_u128 block_subsidy_bix issuance_interval_remainder_bix
    else block_subsidy_bix

pub block_reward_for_interval_bix : ℕ → ℕ → Bix
block_reward_for_interval_bix parent_timestamp child_timestamp =
    let elapsed =
      min (saturating_sub child_timestamp parent_timestamp) max_reward_interval_seconds in
    saturating_mul_u128 blq_issuance_per_interval_bix elapsed / (10 * 60)

pub fee_split_for_utilization : ℕ → FeeSplit
fee_split_for_utilization utilization_basis_points =
    let bounded = min utilization_basis_points max_utilization_basis_points in
    let burn_range = max_burn_percent - min_burn_percent in
    let burn = min_burn_percent + burn_range * bounded / max_utilization_basis_points in
    record { burn_percent = burn % u8_mod; miner_percent = 100 - burn % u8_mod }

pub utilization_basis_points : ℕ → ℕ → ℕ
utilization_basis_points gas_used gas_limit =
    if gas_limit == 0
    then 0
    else saturating_mul_u64 gas_used max_utilization_basis_points / gas_limit

abbrev pub target_gas : ℕ → ℕ
target_gas gas_limit = max (gas_limit / eip1559_elasticity_multiplier) 1

pub next_base_fee_per_gas : BlockHeader → Bix
next_base_fee_per_gas parent =
    let target = target_gas parent.gas_limit in
    let fee = parent.base_fee_per_gas in
    let above =
      max
        (mul_u128 fee (parent.gas_used - target) / target / eip1559_base_fee_max_change_denominator)
        1 in
    let below =
      mul_u128 fee (target - parent.gas_used) / target / eip1559_base_fee_max_change_denominator in
    if parent.gas_used == target
    then fee
    else if ltb target parent.gas_used
    then saturating_add_u128 fee above
    else saturating_sub fee below
