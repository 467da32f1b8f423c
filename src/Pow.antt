-- ===== src/Pow.antt =====
-- crates/blq-pow/src/lib.rs: the epochs and the two engines of the proof of work, one of which a
-- build contains. The caches that the RandomX engine keeps between calls do not change its results
-- and are not modelled.
pub mod Preimage
pub mod Scratchpad
mod Examples
use Prim.Native.Nat.{bit_and}
use blq_node.Base.{
  ℕ, zero, suc, ◌+◌, ◌-◌, ◌*◌, ◌/◌, Bool, List, [], ◌∷◌, ◌++◌, max, leb, if◌then◌else◌, length,
  take, get_or, set, Result, reject_if, ◌>>◌, ok, not, ◌==◌,
}
use blq_node.Base.Bytes.{be_bytes, be_value, bytes_eq, ascii}
use blq_node.Externals.{Externals}
use blq_node.Primitives.{
  Hash256, BlockHeader, hash_zero, mainnet_chain_id, default_pow_algorithm, pow_preimage_bytes,
}

pub data PowError : Type 0 where
  unsupported_algorithm invalid_epoch invalid_mix_hash : PowError

pub record PowResult : Type 0 where
  pub mix_hash : Hash256
  pub final_hash : Hash256

abbrev pub pow_epoch_length : ℕ
pow_epoch_length = 2_048

abbrev pub test_scratchpad_bytes : ℕ
test_scratchpad_bytes = 256 * 1024

pub epoch_for_height : ℕ → ℕ
epoch_for_height height = height / pow_epoch_length

pub pow_preimage : BlockHeader → List ℕ
pow_preimage header = pow_preimage_bytes header

-- `usize::next_power_of_two`: 64 doublings reach every `usize`.
pub next_power_from : ℕ → ℕ → ℕ → ℕ
next_power_from zero power n = power
next_power_from (suc fuel) power n =
    let double = next_power_from fuel (2 * power) n in if leb n power then power else double

pub next_power_of_two : ℕ → ℕ
next_power_of_two n = next_power_from 64 1 n

abbrev pub pick_lane : ℕ → Hash256 → ℕ
pick_lane lanes acc = bit_and (be_value (take 8 acc)) (lanes - 1)

abbrev pub lane_count : ℕ → ℕ
lane_count scratchpad_bytes = next_power_of_two (max scratchpad_bytes 32) / 32

module _ ⦃env : Externals⦄ where
  -- `POW_ALGORITHM`.
  pub pow_algorithm : List ℕ
  pow_algorithm = default_pow_algorithm env.native_randomx

  pub epoch_seed : ℕ → Hash256 → Hash256
  epoch_seed epoch genesis_hash = env.blake3 (
      pow_algorithm
      ++ (ascii "-EPOCH-SEED"
          ++ (be_bytes 8 mainnet_chain_id ++ (be_bytes 8 epoch ++ genesis_hash))))

  -- The lanes from `index` on.
  pub fill_lanes : ℕ → ℕ → Hash256 → List ℕ → List (List ℕ)
  fill_lanes zero index seed input = []
  fill_lanes (suc n) index seed input =
      env.blake3 (pow_algorithm ++ (ascii "-SCRATCHPAD" ++ (seed ++ (input ++ be_bytes 8 index))))
      ∷ fill_lanes n (index + 1) seed input

  -- One round on the accumulator and the memory. `Scratchpad` shows that the pick is in range.
  pub mix_round : ℕ → ℕ → List ℕ → Hash256 × List (List ℕ) → Hash256 × List (List ℕ)
  mix_round lanes round input (acc, memory) =
      let pick = pick_lane lanes acc in
      let lane = get_or memory pick hash_zero in
      let acc' =
        env.blake3
          (pow_algorithm ++ (ascii "-MIX" ++ (acc ++ (lane ++ (input ++ be_bytes 8 round))))) in
      (acc', set memory pick acc')

  pub mix_rounds : ℕ → ℕ → ℕ → List ℕ → Hash256 × List (List ℕ) → Hash256 × List (List ℕ)
  mix_rounds zero round lanes input state = state
  mix_rounds (suc n) round lanes input state =
      mix_rounds n (round + 1) lanes input (mix_round lanes round input state)

  pub blq_rx_hash_with_scratchpad : BlockHeader → Hash256 → ℕ → PowResult
  blq_rx_hash_with_scratchpad header genesis_hash scratchpad_bytes =
      let seed = epoch_seed (epoch_for_height header.number) genesis_hash in
      let input = pow_preimage header in
      let lanes = lane_count scratchpad_bytes in
      let memory = fill_lanes lanes 0 seed input in
      let (acc, _) = mix_rounds (max (lanes * 2) 1_024) 0 lanes input (seed, memory) in
      record { mix_hash = acc; final_hash = env.blake3 (ascii "BLQ-POW-FINAL" ++ (acc ++ input)) }

  -- `native_randomx::hash`.
  unfoldable pub randomx_hash : BlockHeader → Hash256 → PowResult
  randomx_hash header genesis_hash =
      let key = epoch_seed (epoch_for_height header.number) genesis_hash in
      let output = env.randomx key (pow_preimage header) in
      record { mix_hash = output; final_hash = output }

  unfoldable pub blq_rx_hash : BlockHeader → Hash256 → PowResult
  blq_rx_hash header genesis_hash =
      if env.native_randomx
      then randomx_hash header genesis_hash
      else blq_rx_hash_with_scratchpad header genesis_hash test_scratchpad_bytes

  pub validate_pow_fields : BlockHeader → Hash256 → Result (Unit {0}) PowError
  validate_pow_fields header genesis_hash = do
    reject_if (not (bytes_eq header.pow_algorithm pow_algorithm)) unsupported_algorithm
    reject_if (not (header.pow_epoch == epoch_for_height header.number)) invalid_epoch
    reject_if (not (bytes_eq header.mix_hash (blq_rx_hash header genesis_hash).mix_hash))
        invalid_mix_hash
    ok tt
