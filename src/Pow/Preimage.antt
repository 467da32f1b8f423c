-- ===== src/Pow/Preimage.antt =====
-- The proof of work of a header: what it depends on, and its size.
use blq_node.Base.{
  ℕ, zero, suc, ◌+◌, List, refl, length, ◌≡◌, Bool-cases, if_holds, inl, inr, ok, arith, ◌↔◌,
}
use blq_node.Base.Bytes.{bytes_eq_iff}
use blq_node.Externals.{Externals, IsHash}
use blq_node.Primitives.{Hash256, BlockHeader}
use blq_node.Primitives.Encoding.Fields.{pow_preimage-mix_hash}
use blq_node.Pow.{
  PowResult, mix_rounds, mix_round, epoch_seed, blq_rx_hash, blq_rx_hash_with_scratchpad,
  randomx_hash, pow_preimage, pow_algorithm, epoch_for_height, validate_pow_fields,
}

module _ ⦃env : Externals⦄ where
  -- The two digests do not change when the mix hash is filled in.
  pub blq_rx_hash-mix_hash :
      (h : BlockHeader) (g m : Hash256)
      → blq_rx_hash (record h { mix_hash = m }) g ≡ blq_rx_hash h g
  unfolding blq_rx_hash blq_rx_hash_with_scratchpad randomx_hash pow_preimage
  blq_rx_hash-mix_hash h g m = rw (pow_preimage-mix_hash h m)

  pub final_hash-IsHash : (h : BlockHeader) (g : Hash256) → IsHash (blq_rx_hash h g).final_hash
  unfolding blq_rx_hash blq_rx_hash_with_scratchpad randomx_hash
  final_hash-IsHash h g = elim (Bool-cases env.native_randomx) [
    | inl native ↦ rw native (env.randomx-IsHash _ _)
    | inr portable ↦ rw portable (env.blake3-IsHash _)
  ]

  mix_rounds-IsHash :
      (n round lanes : ℕ) (input : List ℕ) (acc : Hash256) (memory : List (List ℕ))
      → IsHash acc
      → IsHash (mix_rounds n round lanes input (acc, memory)).0
  unfolding mix_rounds mix_round
  mix_rounds-IsHash zero round lanes input acc memory h = h
  mix_rounds-IsHash (suc n) round lanes input acc memory h =
      mix_rounds-IsHash n (round + 1) lanes input _ _ (env.blake3-IsHash _)

  pub mix_hash-IsHash : (h : BlockHeader) (g : Hash256) → IsHash (blq_rx_hash h g).mix_hash
  unfolding blq_rx_hash blq_rx_hash_with_scratchpad randomx_hash epoch_seed
  mix_hash-IsHash h g =
      if_holds {A = PowResult} (λ r. IsHash r.mix_hash) env.native_randomx _ _
        (env.randomx-IsHash _ _) (mix_rounds-IsHash _ 0 _ _ _ _ (env.blake3-IsHash _))

  pub length-pow_algorithm : length pow_algorithm ≡ 8
  unfolding pow_algorithm
  length-pow_algorithm = elim (Bool-cases env.native_randomx) [
    | inl native ↦ rw native refl
    | inr portable ↦ rw portable refl
  ]

  -- The conditions on the fields of a header.
  pub record HasPowFields (h : BlockHeader) (g : Hash256) : Type 0 where
    pub algorithm : h.pow_algorithm ≡ pow_algorithm
    pub epoch : h.pow_epoch ≡ epoch_for_height h.number
    pub mix : h.mix_hash ≡ (blq_rx_hash h g).mix_hash

  pub validate_pow_fields-HasPowFields :
      (h : BlockHeader) (g : Hash256) → (validate_pow_fields h g ≡ ok tt) ↔ HasPowFields h g
  unfolding validate_pow_fields
  validate_pow_fields-HasPowFields h g = ground (
    arith,
    bytes_eq_iff h.pow_algorithm pow_algorithm,
    bytes_eq_iff h.mix_hash (blq_rx_hash h g).mix_hash,
  )
