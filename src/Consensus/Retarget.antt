-- ===== src/Consensus/Retarget.antt =====
-- The difficulty controllers of crates/blq-consensus/src/lib.rs: the window controller, the
-- per-block one with its deadband, and version 2, which follows a median of block intervals.
pub mod Bounds
use blq_node.Base.{
  ℕ, ◌+◌, ◌-◌, ◌*◌, ◌/◌, Bool, ◌&&◌, ltb, leb, if◌then◌else◌, min, max, saturating_mul_u64,
}
use blq_node.Primitives.{
  Hash256, target_block_time_seconds, difficulty_adjustment_interval,
  min_acceptable_block_time_seconds, max_acceptable_block_time_seconds,
  max_difficulty_adjustment_percent, block_time_v2_fast_median_seconds,
  block_time_v2_slow_interval_seconds, block_time_v2_slow_cap_numerator,
  block_time_v2_slow_cap_denominator, block_time_v2_normal_cap_numerator,
  block_time_v2_normal_cap_denominator, block_time_v2_target_seconds,
}
use blq_node.Consensus.Target.{scale_target, scale_target_fraction}

-- `Ord::clamp`.
abbrev pub clamp : ℕ → ℕ → ℕ → ℕ
clamp x lo hi = if ltb x lo then lo else if ltb hi x then hi else x

abbrev pub expected_window : ℕ
expected_window = target_block_time_seconds * difficulty_adjustment_interval

pub next_difficulty_target : Hash256 → ℕ → Hash256
next_difficulty_target current_target actual_window_seconds =
    scale_target current_target
      (clamp actual_window_seconds (expected_window / 4) (expected_window * 4)) expected_window

pub next_block_difficulty_target : Hash256 → ℕ → Hash256
next_block_difficulty_target current_target actual_seconds =
    if leb min_acceptable_block_time_seconds actual_seconds
      && leb actual_seconds max_acceptable_block_time_seconds
    then current_target
    else if ltb max_acceptable_block_time_seconds actual_seconds
    then scale_target_fraction current_target (100 + max_difficulty_adjustment_percent) 100
    else scale_target_fraction current_target (100 - max_difficulty_adjustment_percent) 100

-- The part of version 2 that neither emergency rule takes.
pub normal_difficulty_target : Hash256 → ℕ → Hash256
normal_difficulty_target current_target median_interval_seconds =
    let cap = block_time_v2_normal_cap_denominator in
    let numerator = saturating_mul_u64 median_interval_seconds cap in
    let denominator = saturating_mul_u64 block_time_v2_target_seconds cap in
    if ltb (saturating_mul_u64 numerator cap) (saturating_mul_u64 denominator (cap - 1))
    then scale_target_fraction current_target (cap - 1) cap
    else if ltb (saturating_mul_u64 denominator block_time_v2_normal_cap_numerator)
        (saturating_mul_u64 numerator cap)
    then scale_target_fraction current_target block_time_v2_normal_cap_numerator cap
    else scale_target current_target numerator denominator

pub next_block_difficulty_target_v2 : Hash256 → ℕ → ℕ → Hash256
unfolding normal_difficulty_target
next_block_difficulty_target_v2 current_target median_interval_seconds latest_interval_seconds =
    if ltb median_interval_seconds block_time_v2_fast_median_seconds
    then scale_target_fraction current_target 75 100
    else if leb block_time_v2_slow_interval_seconds latest_interval_seconds
    then scale_target_fraction current_target block_time_v2_slow_cap_numerator
        block_time_v2_slow_cap_denominator
    else normal_difficulty_target current_target median_interval_seconds
