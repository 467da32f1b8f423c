-- ===== src/Consensus/Fees/Split.antt =====
-- Every fee is divided without loss, and the burned share follows the utilization.
use native.Mathlib.Nat.{mul-le-mul_left, div-le_of_le-mul}
use blq_node.Base.{ℕ, zero, suc, ◌+◌, ◌-◌, ◌*◌, ◌/◌, ◌≤◌, ◌≡◌, arith, min, u64_max, u128_max}
use blq_node.Consensus.Fees.{split_fee, fee_split_for_utilization, utilization_basis_points}

split_at :
    (p fee : ℕ)
    → p ≤ 40
    → (min (fee * p) u128_max / 100 + (fee - min (fee * p) u128_max / 100) ≡ fee)
      × (min (fee * p) u128_max / 100 ≤ fee * 40 / 100)
split_at p fee h = let most : fee * p ≤ fee * 40 = mul-le-mul_left fee h in omega arith

-- Whatever the utilization is, the two shares of a fee add up to the fee: nothing is lost or
-- minted, and the burned share is at most 40 percent of it.
pub split_fee_conserves :
    (utilization fee : ℕ)
    → let (burned, kept) = split_fee (fee_split_for_utilization utilization) fee in
      (burned + kept ≡ fee) × (burned ≤ fee * 40 / 100)
unfolding split_fee fee_split_for_utilization
split_fee_conserves utilization fee =
    split_at (fee_split_for_utilization utilization).burn_percent fee (omega arith)

-- The burned percentage lies between 5 and 40, the two percentages add up to 100, and a higher
-- utilization never burns less.
pub fee_split_mono :
    (u v : ℕ)
    → u ≤ v
    → let low = fee_split_for_utilization u in
      let high = fee_split_for_utilization v in
      (5 ≤ low.burn_percent)
      × (low.burn_percent ≤ high.burn_percent)
      × (high.burn_percent ≤ 40)
      × (low.burn_percent + low.miner_percent ≡ 100)
unfolding fee_split_for_utilization
fee_split_mono u v h = omega arith

-- A block within its gas limit has at most 10000 basis points.
pub utilization_basis_points-le :
    (used limit : ℕ) → used ≤ limit → utilization_basis_points used limit ≤ 10_000
unfolding utilization_basis_points
utilization_basis_points-le used zero h = omega arith
utilization_basis_points-le used (suc limit) h = ground (
  arith,
  div-le_of_le-mul (suc limit) {m = min (used * 10_000) u64_max} {n = 10_000} (omega arith),
)
