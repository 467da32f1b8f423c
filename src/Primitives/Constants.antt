-- ===== src/Primitives/Constants.antt =====
-- The constants of crates/blq-primitives/src/lib.rs.
use blq_node.Base.{ℕ, ◌*◌, List, replicate, Bool, if◌then◌else◌}
use blq_node.Base.Bytes.{ascii}

abbrev pub bix_per_blq : ℕ
bix_per_blq = 1_000_000_000_000_000_000

abbrev pub target_block_time_seconds : ℕ
target_block_time_seconds = 30

abbrev pub min_acceptable_block_time_seconds : ℕ
min_acceptable_block_time_seconds = 15

abbrev pub max_acceptable_block_time_seconds : ℕ
max_acceptable_block_time_seconds = 45

abbrev pub max_difficulty_adjustment_percent : ℕ
max_difficulty_adjustment_percent = 25

abbrev pub block_time_v2_median_window : ℕ
block_time_v2_median_window = 16

abbrev pub block_time_v2_target_seconds : ℕ
block_time_v2_target_seconds = 15

abbrev pub block_time_v2_fast_median_seconds : ℕ
block_time_v2_fast_median_seconds = 3

abbrev pub block_time_v2_slow_interval_seconds : ℕ
block_time_v2_slow_interval_seconds = 60

abbrev pub block_time_v2_normal_cap_numerator : ℕ
block_time_v2_normal_cap_numerator = 17

abbrev pub block_time_v2_normal_cap_denominator : ℕ
block_time_v2_normal_cap_denominator = 16

abbrev pub block_time_v2_slow_cap_numerator : ℕ
block_time_v2_slow_cap_numerator = 9

abbrev pub block_time_v2_slow_cap_denominator : ℕ
block_time_v2_slow_cap_denominator = 8

abbrev pub difficulty_adjustment_interval : ℕ
difficulty_adjustment_interval = 60

abbrev pub blq_issuance_per_interval_bix : ℕ
blq_issuance_per_interval_bix = bix_per_blq

abbrev pub max_reward_interval_seconds : ℕ
max_reward_interval_seconds = 120

abbrev pub min_burn_percent : ℕ
min_burn_percent = 5

abbrev pub max_burn_percent : ℕ
max_burn_percent = 40

abbrev pub max_utilization_basis_points : ℕ
max_utilization_basis_points = 10_000

abbrev pub mainnet_chain_id : ℕ
mainnet_chain_id = 707_070

abbrev pub genesis_gas_limit : ℕ
genesis_gas_limit = 30_000_000

abbrev pub genesis_timestamp_seconds : ℕ
genesis_timestamp_seconds = 0

abbrev pub initial_base_fee_per_gas_bix : ℕ
initial_base_fee_per_gas_bix = 1_000_000_000

abbrev pub eip1559_elasticity_multiplier : ℕ
eip1559_elasticity_multiplier = 2

abbrev pub eip1559_base_fee_max_change_denominator : ℕ
eip1559_base_fee_max_change_denominator = 8

abbrev pub max_transaction_payload_bytes : ℕ
max_transaction_payload_bytes = 128 * 1024

abbrev pub max_block_bytes : ℕ
max_block_bytes = 2 * 1024 * 1024

abbrev pub max_access_list_entries : ℕ
max_access_list_entries = 256

abbrev pub max_access_list_storage_keys_per_entry : ℕ
max_access_list_storage_keys_per_entry = 1_024

abbrev pub max_access_list_storage_keys : ℕ
max_access_list_storage_keys = 4_096

abbrev pub hash_zero : List ℕ
hash_zero = replicate 32 0

-- `Hash256([0xff; 32])`.
abbrev pub hash_max : List ℕ
hash_max = replicate 32 255

abbrev pub genesis_difficulty_target : List ℕ
genesis_difficulty_target = replicate 32 0x0f

-- `DEFAULT_POW_ALGORITHM`, by whether the feature `native-randomx` is on.
abbrev pub default_pow_algorithm : Bool → List ℕ
default_pow_algorithm native = if native then ascii "BLQ-RX/2" else ascii "BLQ-RX/1"
