-- ===== src/Pow/Examples.antt =====
-- The scratchpad of the size that the tests use.
use blq_node.Base.{◌<◌, arith, length}
use blq_node.Pow.{lane_count, pick_lane, mix_rounds, fill_lanes}
use blq_node.Pow.Scratchpad.{mix_rounds-in_range}
use blq_node.Samples.{sample_env, target, alice}

mix_rounds-in_range_example :
    let state =
      mix_rounds ⦃env = sample_env⦄ 3 0
        (lane_count 100)
        alice
        (target, fill_lanes ⦃env = sample_env⦄ (lane_count 100) 0 target alice) in
    pick_lane (lane_count 100) state.0 < length state.1
mix_rounds-in_range_example =
    mix_rounds-in_range ⦃env = sample_env⦄ 100 3 0 target alice (omega arith)
