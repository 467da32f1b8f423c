-- ===== src/Consensus/Retarget/Bounds.antt =====
-- What the controllers do to the number that a target spells.
use blq_node.Base.{
  ℕ, ◌*◌, ◌/◌, ◌≤◌, ◌<◌, ◌≡◌, refl, arith, min, max, u64_mod, ltb, leb, if◌then◌else◌,
}
use native.Mathlib.Nat.{mul-le-mul_left}
use native.Mathlib.Decide.{dec_lt}
use blq_node.Base.Bytes.{be_value}
use blq_node.Externals.{IsHash}
use blq_node.Primitives.{Hash256}
use blq_node.Consensus.Target.{scale_target, scale_target_fraction}
use blq_node.Consensus.Target.Scale.{
  scale_target_lem, scale_target_fraction_lem, max_target, be_value-le-max_target,
}
use blq_node.Consensus.Retarget.{
  clamp, next_difficulty_target, next_block_difficulty_target, normal_difficulty_target,
  next_block_difficulty_target_v2,
}

-- The window controller scales a digest by the window over the expected 1800 seconds, the window
-- held between 450 and 7200 seconds.
pub next_difficulty_target_lem :
    (t : Hash256) (window : ℕ)
    → IsHash t
    → (be_value (next_difficulty_target t window)
        ≡ min (be_value t * max 450 (min window 7200) / 1800) max_target)
      × IsHash (next_difficulty_target t window)
unfolding next_difficulty_target
next_difficulty_target_lem t window h =
    let n = clamp window 450 7200 in
    let same : n ≡ max 450 (min window 7200) = ground arith in
    rw (← same) (scale_target_lem t n 1800 h (omega arith) (omega arith) (ground arith))

-- The controller per block lowers a target by a quarter for a block under 15 seconds, raises it by a
-- quarter for one over 45, up to the largest target, and keeps it between.
pub next_block_difficulty_target_lem :
    (t : Hash256) (seconds : ℕ)
    → IsHash t
    → (be_value (next_block_difficulty_target t seconds) ≡ (
        if ltb seconds 15
        then be_value t * 3 / 4
        else if ltb 45 seconds
        then min (be_value t * 5 / 4) max_target
        else be_value t))
      × IsHash (next_block_difficulty_target t seconds)
unfolding next_block_difficulty_target
next_block_difficulty_target_lem t seconds h = ground (
  arith,
  scale_target_fraction_lem t 125 100 h (omega arith) (omega arith) (omega arith),
  scale_target_fraction_lem t 75 100 h (omega arith) (omega arith) (omega arith),
  be_value-le-max_target t h,
)

normal_fast :
    (t : Hash256) (median : ℕ)
    → median < 15
    → normal_difficulty_target t median ≡ scale_target_fraction t 15 16
unfolding normal_difficulty_target
normal_fast t median h = ground arith

normal_slow :
    (t : Hash256) (median : ℕ)
    → 15 < median
    → normal_difficulty_target t median ≡ scale_target_fraction t 17 16
unfolding normal_difficulty_target
normal_slow t median h = ground arith

normal_on_time : (t : Hash256) → normal_difficulty_target t 15 ≡ scale_target t 240 240
unfolding normal_difficulty_target
normal_on_time t = refl

-- In the normal regime: the median's fraction of 15 seconds, held between 15/16 and 17/16.
pub normal_difficulty_target_lem :
    (t : Hash256) (median : ℕ)
    → IsHash t
    → median < u64_mod
    → (be_value (normal_difficulty_target t median)
        ≡ min (be_value t * max 225 (min (16 * median) 255) / 240) max_target)
      × IsHash (normal_difficulty_target t median)
normal_difficulty_target_lem t median h word = elim (dec_lt median 15) [
  | yes fast ↦
      let (e, hash) =
        scale_target_fraction_lem t 15 16 h (omega arith) (omega arith) (omega arith) in
      let ratio : max 225 (min (16 * median) 255) ≡ 225 = omega arith in
      rw (normal_fast t median fast, ratio) (omega (arith, e), hash)
  | no slow ↦ elim (dec_lt 15 median) [
    | yes over ↦
        let (e, hash) =
          scale_target_fraction_lem t 17 16 h (omega arith) (omega arith) (omega arith) in
        let ratio : max 225 (min (16 * median) 255) ≡ 255 = omega arith in
        rw (normal_slow t median over, ratio) (omega (arith, e), hash)
    | no under ↦
        let e : median ≡ 15 = omega arith in
        let (same, hash) = scale_target_lem t 240 240 h (omega arith) (omega arith) (omega arith) in
        rw (e, normal_on_time t) (omega (arith, same), hash)
  ]
]

-- Version 2 cuts a target by a quarter where the median interval is under 3 seconds, else raises it
-- by an eighth where the latest interval is 60 seconds or more, and else scales it by the median
-- over 15 seconds, held between 15/16 and 17/16; never above the largest target.
pub next_block_difficulty_target_v2_lem :
    (t : Hash256) (median latest : ℕ)
    → IsHash t
    → median < u64_mod
    → (be_value (next_block_difficulty_target_v2 t median latest) ≡ (
        if ltb median 3
        then be_value t * 3 / 4
        else if leb 60 latest
        then min (be_value t * 9 / 8) max_target
        else min (be_value t * max 225 (min (16 * median) 255) / 240) max_target))
      × IsHash (next_block_difficulty_target_v2 t median latest)
unfolding next_block_difficulty_target_v2
next_block_difficulty_target_v2_lem t median latest h word = ground (
  arith,
  scale_target_fraction_lem t 75 100 h (omega arith) (omega arith) (omega arith),
  scale_target_fraction_lem t 9 8 h (omega arith) (omega arith) (omega arith),
  normal_difficulty_target_lem t median h word,
  be_value-le-max_target t h,
)

ratio_bounds : (v k : ℕ) → 225 ≤ k → k ≤ 255 → (v * 3 / 4 ≤ v * k / 240) × (v * k / 240 ≤ v * 9 / 8)
ratio_bounds v k lo hi =
    let low : v * 225 ≤ v * k = mul-le-mul_left v lo in
    let high : v * k ≤ v * 255 = mul-le-mul_left v hi in omega arith

-- Whatever the intervals are, one step of version 2 lowers a target by at most a quarter and raises
-- it by at most an eighth.
pub next_block_difficulty_target_v2_bounds :
    (t : Hash256) (median latest : ℕ)
    → IsHash t
    → median < u64_mod
    → let next = be_value (next_block_difficulty_target_v2 t median latest) in
      (be_value t * 3 / 4 ≤ next) × (next ≤ be_value t * 9 / 8)
next_block_difficulty_target_v2_bounds t median latest h word = ground (
  arith,
  (next_block_difficulty_target_v2_lem t median latest h word).0,
  be_value-le-max_target t h,
  ratio_bounds (be_value t) (max 225 (min (16 * median) 255)) (omega arith) (omega arith),
)
