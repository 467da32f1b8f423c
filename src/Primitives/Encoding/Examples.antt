-- ===== src/Primitives/Encoding/Examples.antt =====
-- The theorems of the encodings at concrete headers and bodies.
use blq_node.Base.{ℕ, ◌≡◌, ◌⊎◌, refl, arith, List, [], ◌∷◌, map}
use blq_node.Primitives.Encoding.{
  transaction_bytes, put_u64, put_u128, put_bytes, put_recipient, put_typed_section, put_signature,
}
use blq_node.Base.Bytes.{be_bytes}
use blq_node.Primitives.Encoding.Injective.{header_bytes-injective}
use blq_node.Primitives.Encoding.Roots.{Collide, ZeroDigest, transactions_root_binds}
use blq_node.Samples.{sample_env, parent, parent-IsHeader, alice, target, payment}

header_bytes-injective_example : parent ≡ parent
header_bytes-injective_example =
    header_bytes-injective parent parent parent-IsHeader parent-IsHeader refl

abbrev body : List (List ℕ)
body = map transaction_bytes (payment alice 4 7 target ∷ [])

transactions_root_binds_example :
    (body ≡ body)
    ⊎ (Collide ⦃env = sample_env⦄ body body
        ⊎ (ZeroDigest ⦃env = sample_env⦄ body ⊎ ZeroDigest ⦃env = sample_env⦄ body))
unfolding transaction_bytes put_u64 put_u128 put_bytes put_recipient put_typed_section put_signature
    be_bytes
transactions_root_binds_example =
    transactions_root_binds ⦃env = sample_env⦄ (payment alice 4 7 target ∷ [])
      (payment alice 4 7 target ∷ []) (omega arith) (omega arith) refl
