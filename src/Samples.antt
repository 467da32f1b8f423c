-- ===== src/Samples.antt =====
-- Concrete data for the examples: an instance of the external code, headers and transactions.
pub mod Serial
pub mod Codecs
pub mod Store
use blq_node.Base.{
  ℕ, ◌+◌, ◌-◌, ◌/◌, ◌%◌, refl, true, false, List, [], ◌∷◌, some, none, replicate, sum_of, arith,
}
use blq_node.Base.Bytes.{be_value, ascii}
use blq_node.Externals.{Externals, U256, Signer, IsHash}
use blq_node.Primitives.{Hash256, Address, Transaction, BlockHeader, IsHeader, hash_zero}

-- A digest that tells short texts apart.
abbrev pub checksum : List ℕ → List ℕ
checksum bs = (sum_of (λ b. b) bs % 256) ∷ replicate 31 7

pub checksum-IsHash : (bs : List ℕ) → IsHash (checksum bs)
checksum-IsHash bs = omega arith

-- Every nonce wins under this engine.
instance abbrev pub sample_env : Externals
sample_env = record {
  native_randomx = true;
  sha256 = checksum;
  blake3 = checksum;
  randomx = λ key bs. replicate 32 1;
  sha256-IsHash = checksum-IsHash;
  blake3-IsHash = checksum-IsHash;
  randomx-IsHash = λ key bs. omega arith;
}

abbrev pub sample_words : U256
sample_words = record {
  from_be_bytes = be_value;
  add = λ a b. a + b;
  sub = λ a b. a - b;
  div = λ a b. a / b;
  rem = λ a b. a % b;
  from_be_bytes-be_value = λ bs h. refl;
  add_lem = λ a b h. refl;
  sub_lem = λ a b h. refl;
  div_lem = λ a b h. refl;
  rem_lem = λ a b h. refl;
}

abbrev pub alice : Address
alice = replicate 20 1

abbrev pub bob : Address
bob = replicate 20 2

-- Alice signed everything.
abbrev pub sample_signer : Signer
sample_signer = record {
  keccak256 = checksum;
  is_high_s = λ y_parity r s. false;
  recover_address = λ y_parity r s digest. some alice;
}

abbrev pub target : Hash256
target = replicate 32 15

abbrev pub parent : BlockHeader
parent = record {
  parent_hash = hash_zero;
  number = 4_095;
  state_root = replicate 32 3;
  transactions_root = hash_zero;
  receipts_root = hash_zero;
  beneficiary = hash_zero;
  difficulty_target = target;
  base_fee_per_gas = 1_000_000_000;
  gas_limit = 30_000_000;
  gas_used = 21_000_000;
  timestamp_seconds = 1_000;
  pow_algorithm = ascii "BLQ-RX/2";
  pow_epoch = 1;
  extra_nonce = 0;
  mix_hash = replicate 32 1;
  nonce = 12;
}

pub parent-IsHeader : IsHeader parent
parent-IsHeader = record {
  parent_hash = omega arith;
  number = omega arith;
  state_root = omega arith;
  transactions_root = omega arith;
  receipts_root = omega arith;
  beneficiary = omega arith;
  difficulty_target = omega arith;
  base_fee_per_gas = omega arith;
  gas_limit = omega arith;
  gas_used = omega arith;
  timestamp_seconds = omega arith;
  pow_algorithm = omega arith;
  pow_epoch = omega arith;
  extra_nonce = omega arith;
  mix_hash = omega arith;
  nonce = omega arith;
}

-- A payment with a sender, a nonce, fees and the hash that the network knows it by.
abbrev pub payment : Address → ℕ → ℕ → Hash256 → Transaction
payment from nonce tip hash = record {
  chain_id = 707_070;
  transaction_type = 2;
  nonce = nonce;
  from = from;
  to = some bob;
  value = 5;
  gas_limit = 21_000;
  max_fee_per_gas = 3_000_000_000;
  max_priority_fee_per_gas = tip;
  payload = 9 ∷ 8 ∷ [];
  access_list = [];
  signature = none;
  external_hash = some hash;
}
