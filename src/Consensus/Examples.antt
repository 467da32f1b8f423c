-- ===== src/Consensus/Examples.antt =====
-- The theorems of consensus at concrete blocks, targets and fees.
use blq_node.Base.{
  ◌-◌, ◌+◌, ◌*◌, ◌/◌, ◌≤◌, ◌≡◌, ◌↔◌, [], ◌∷◌, some, arith, min, max, ok, if◌then◌else◌, ltb, leb,
}
use blq_node.Base.Bytes.{be_value}
use blq_node.Externals.{IsHash}
use blq_node.Primitives.{Block, bix_per_blq}
use blq_node.Consensus.Target.{scale_target_fraction, scale_target}
use blq_node.Consensus.Target.Scale.{scale_target_fraction_lem, scale_target_lem, max_target}
use blq_node.Consensus.Retarget.{next_block_difficulty_target_v2}
use blq_node.Consensus.Retarget.Bounds.{
  next_block_difficulty_target_v2_lem, next_block_difficulty_target_v2_bounds,
}
use blq_node.Consensus.Fees.{split_fee, fee_split_for_utilization}
use blq_node.Consensus.Fees.Split.{split_fee_conserves}
use blq_node.Consensus.Fees.Issuance.{interval_rewards, interval_rewards-le, last_of}
use blq_node.Consensus.Validation.{
  validate_block_with_genesis_and_activation, validate_header_with_genesis,
  validate_transaction_fee,
}
use blq_node.Consensus.Validation.Sound.{
  IsAcceptable, validate_transaction_fee-IsAcceptable, IsChild, validate_header-IsChild,
}
use blq_node.Consensus.Validation.Blocks.{IsValidBlock, validate_block-IsValidBlock}
use blq_node.Samples.{sample_env, parent, target, alice, payment}

abbrev child : Block
child = record {
  header = record parent {
    number = 4_096;
    timestamp_seconds = 1_020;
    gas_used = 0;
    pow_epoch = 2;
    base_fee_per_gas = 1_050_000_000;
  };
  transactions = [];
  receipts = [];
}

validate_block-IsValidBlock_example :
    (validate_block_with_genesis_and_activation ⦃env = sample_env⦄ parent child target (some 100)
      ≡ ok tt)
    ↔ IsValidBlock ⦃env = sample_env⦄ parent child target (some 100)
validate_block-IsValidBlock_example =
    validate_block-IsValidBlock ⦃env = sample_env⦄ parent child target (some 100) (omega arith)
      (omega arith)

validate_header-IsChild_example :
    (validate_header_with_genesis ⦃env = sample_env⦄ parent child.header target ≡ ok tt)
    ↔ IsChild ⦃env = sample_env⦄ parent child.header target
validate_header-IsChild_example =
    validate_header-IsChild ⦃env = sample_env⦄ parent child.header target (omega arith)
      (omega arith)

validate_transaction_fee-IsAcceptable_example :
    (validate_transaction_fee (payment alice 4 7 target) 1_000 ≡ ok tt)
    ↔ IsAcceptable (payment alice 4 7 target) 1_000
validate_transaction_fee-IsAcceptable_example =
    validate_transaction_fee-IsAcceptable (payment alice 4 7 target) 1_000

scale_target_fraction_lem_example :
    (be_value (scale_target_fraction target 17 16) ≡ min (be_value target * 17 / 16) max_target)
    × IsHash (scale_target_fraction target 17 16)
scale_target_fraction_lem_example =
    scale_target_fraction_lem target 17 16 (omega arith) (omega arith) (omega arith) (omega arith)

scale_target_lem_example :
    (be_value (scale_target target 900 1_800) ≡ min (be_value target * 900 / 1_800) max_target)
    × IsHash (scale_target target 900 1_800)
scale_target_lem_example =
    scale_target_lem target 900 1_800 (omega arith) (omega arith) (omega arith) (omega arith)

next_block_difficulty_target_v2_lem_example :
    (be_value (next_block_difficulty_target_v2 target 14 20) ≡ (
      if ltb 14 3
      then be_value target * 3 / 4
      else if leb 60 20
      then min (be_value target * 9 / 8) max_target
      else min (be_value target * max 225 (min (16 * 14) 255) / 240) max_target))
    × IsHash (next_block_difficulty_target_v2 target 14 20)
next_block_difficulty_target_v2_lem_example =
    next_block_difficulty_target_v2_lem target 14 20 (omega arith) (omega arith)

next_block_difficulty_target_v2_bounds_example :
    (be_value target * 3 / 4 ≤ be_value (next_block_difficulty_target_v2 target 2 70))
    × (be_value (next_block_difficulty_target_v2 target 2 70) ≤ be_value target * 9 / 8)
next_block_difficulty_target_v2_bounds_example =
    next_block_difficulty_target_v2_bounds target 2 70 (omega arith) (omega arith)

split_fee_conserves_example :
    let (burned, kept) = split_fee (fee_split_for_utilization 5_000) 21_007 in
    (burned + kept ≡ 21_007) × (burned ≤ 21_007 * 40 / 100)
split_fee_conserves_example = split_fee_conserves 5_000 21_007

interval_rewards-le_example :
    interval_rewards 100 (115 ∷ 400 ∷ []) ≤ bix_per_blq * (last_of 100 (115 ∷ 400 ∷ []) - 100) / 600
interval_rewards-le_example = interval_rewards-le 100 (115 ∷ 400 ∷ []) (omega arith)
