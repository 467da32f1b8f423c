-- ===== src/Externals.antt =====
-- The code of other projects that the node hashes with: the crates sha2 and blake3 and the
-- RandomX library behind crates/blq-pow's FFI, with the cargo feature `native-randomx`.
use blq_node.Base.{ℕ, ◌+◌, ◌-◌, ◌/◌, ◌%◌, ◌^◌, ◌<◌, ◌≤◌, ◌≡◌, Bool, Option, List, length}
use blq_node.Base.Bytes.{IsBytes, be_value}

-- A digest of 32 bytes.
abbrev pub IsHash : List ℕ → Type 0
IsHash h = (length h ≡ 32) × IsBytes h

pub record Externals : Type 0 where
  -- Whether the cargo feature `native-randomx` is on.
  pub native_randomx : Bool
  pub sha256 : List ℕ → List ℕ
  pub blake3 : List ℕ → List ℕ
  -- `randomx_calculate_hash` under a cache that was initialised with the key.
  pub randomx : List ℕ → List ℕ → List ℕ
  -- Each writes an array of 32 bytes.
  pub sha256-IsHash : (bs : List ℕ) → IsHash (sha256 bs)
  pub blake3-IsHash : (bs : List ℕ) → IsHash (blake3 bs)
  pub randomx-IsHash : (key bs : List ℕ) → IsHash (randomx key bs)

-- The 256-bit integers of the crate alloy_primitives, each by its value.
pub record U256 : Type 0 where
  pub from_be_bytes : List ℕ → ℕ
  pub add : ℕ → ℕ → ℕ
  pub sub : ℕ → ℕ → ℕ
  pub div : ℕ → ℕ → ℕ
  pub rem : ℕ → ℕ → ℕ
  pub from_be_bytes-be_value : (bs : List ℕ) → IsHash bs → from_be_bytes bs ≡ be_value bs
  pub add_lem : (a b : ℕ) → a + b < 2 ^ 256 → add a b ≡ a + b
  pub sub_lem : (a b : ℕ) → b ≤ a → sub a b ≡ a - b
  pub div_lem : (a b : ℕ) → 0 < b → div a b ≡ a / b
  pub rem_lem : (a b : ℕ) → 0 < b → rem a b ≡ a % b

-- The digest and the signatures of the crates revm and alloy: which signatures have their second
-- scalar in the upper half, and the signer of a digest.
pub record Signer : Type 0 where
  pub keccak256 : List ℕ → List ℕ
  pub is_high_s : Bool → List ℕ → List ℕ → Bool
  pub recover_address : Bool → List ℕ → List ℕ → List ℕ → Option (List ℕ)
