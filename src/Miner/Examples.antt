-- ===== src/Miner/Examples.antt =====
-- A template on a concrete parent, sealed.
use blq_node.Base.{◌≡◌, refl, arith, some, none, ok, replicate}
use blq_node.Base.Bytes.{bytes_cmp}
use blq_node.Pow.{blq_rx_hash, randomx_hash}
use blq_node.Consensus.Validation.{satisfies_pow, validate_block_with_genesis_and_activation}
use blq_node.Miner.{
  BlockTemplate, into_unsealed_block, empty_header, build_empty_template_with_genesis, with_nonce,
  nonce_wins, try_nonces, seal_empty_template_with_genesis,
}
use blq_node.Miner.Sealed.{sealed_block_accepted}
use blq_node.Samples.{sample_env, parent, parent-IsHeader, target}

abbrev template : BlockTemplate
template = build_empty_template_with_genesis ⦃env = sample_env⦄ parent target 1_020 target

sealed :
    seal_empty_template_with_genesis ⦃env = sample_env⦄ template 5 3 target
    ≡ some (with_nonce ⦃env = sample_env⦄ template 5 target)
unfolding seal_empty_template_with_genesis try_nonces nonce_wins build_empty_template_with_genesis
    empty_header blq_rx_hash randomx_hash satisfies_pow bytes_cmp
sealed = refl

sealed_block_accepted_example :
    validate_block_with_genesis_and_activation ⦃env = sample_env⦄ parent
      (into_unsealed_block (with_nonce ⦃env = sample_env⦄ template 5 target))
      target
      (some 0)
    ≡ ok tt
sealed_block_accepted_example =
    sealed_block_accepted ⦃env = sample_env⦄ parent target 1_020 target 5 3 (some 0) parent-IsHeader
      (omega arith) (omega arith) (omega arith) sealed

-- No digest of this engine is as small as the target 0.
abbrev hopeless : BlockTemplate
hopeless = record template { target = replicate 32 0 }

unsealed : seal_empty_template_with_genesis ⦃env = sample_env⦄ hopeless 5 3 target ≡ none
unfolding seal_empty_template_with_genesis try_nonces with_nonce nonce_wins
    build_empty_template_with_genesis empty_header blq_rx_hash randomx_hash satisfies_pow bytes_cmp
unsealed = refl
