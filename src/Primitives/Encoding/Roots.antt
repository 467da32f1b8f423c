-- ===== src/Primitives/Encoding/Roots.antt =====
-- A root commits to its items: two lists under one root are equal, or the hash is broken.
use mathlib.Core.List.{append_assoc}
use blq_node.Base.{
  ℕ, ◌≡◌, ◌<◌, ◌≢◌, ◌⊎◌, inl, inr, refl, sym, ap, arith, length, length-append, Bool-cases, List,
  [], ◌∷◌, ◌++◌, All, u64_mod, ◌%◌, map,
}
use blq_node.Base.Bytes.{bytes_eq, bytes_eq_iff}
use blq_node.Externals.{Externals, IsHash}
use blq_node.Primitives.Constants.{hash_zero}
use blq_node.Primitives.Types.{BlockHeader, Transaction}
use blq_node.Primitives.Encoding.{
  put_u64, hash_bytes, header_hash, merkle_like_root, root_items, root_preimage, transactions_root,
  receipts_root, transaction_bytes,
}
use blq_node.Primitives.Encoding.Lengths.{length-put_u64}
use blq_node.Primitives.Encoding.Injective.{split_append, split_u64}

too_short :
    (x : List ℕ) (rest : List ℕ) (n m : ℕ)
    → put_u64 n ≡ (put_u64 (length x % u64_mod) ++ (x ++ rest)) ++ put_u64 m
    → ⊥
too_short x rest n m e = omega (arith, ap length e, length-append {0}, length-put_u64)

-- The items are read back from the front; what is left at the end is the 8 bytes of their number.
root_items-injective :
    (xs ys : List (List ℕ)) (n m : ℕ)
    → All (λ x. length x < u64_mod) xs
    → All (λ x. length x < u64_mod) ys
    → root_items xs ++ put_u64 n ≡ root_items ys ++ put_u64 m
    → xs ≡ ys
unfolding root_items
root_items-injective [] [] n m h k e = refl
root_items-injective [] (y ∷ ys) n m h k e = absurd (too_short y (root_items ys) n m e)
root_items-injective (x ∷ xs) [] n m h k e = absurd (too_short x (root_items xs) m n (sym e))
root_items-injective (x ∷ xs) (y ∷ ys) n m h k e =
    let (len, rest) =
      split_u64 (length x % u64_mod) (length y % u64_mod) {us = x ++ (root_items xs ++ put_u64 n)}
        {vs = y ++ (root_items ys ++ put_u64 m)} (omega arith) (omega arith)
        (simp append_assoc at e) in
    let (same, others) =
      split_append x y {us = root_items xs ++ put_u64 n} {vs = root_items ys ++ put_u64 m}
        (omega arith) rest in
    cc (root_items-injective xs ys n m h.1 k.1 others)

pub root_preimage-injective :
    (xs ys : List (List ℕ))
    → All (λ x. length x < u64_mod) xs
    → All (λ x. length x < u64_mod) ys
    → root_preimage xs ≡ root_preimage ys
    → xs ≡ ys
unfolding root_preimage
root_preimage-injective xs ys h k e =
    root_items-injective xs ys (length xs % u64_mod) (length ys % u64_mod) h k e

module _ ⦃env : Externals⦄ where
  -- The preimages of two lists are two texts with one digest.
  abbrev pub Collide : List (List ℕ) → List (List ℕ) → Type 0
  Collide xs ys =
      (root_preimage xs ≢ root_preimage ys)
      × (env.sha256 (root_preimage xs) ≡ env.sha256 (root_preimage ys))

  -- The digest of a list's preimage is 32 zero bytes, the root of the empty list.
  abbrev pub ZeroDigest : List (List ℕ) → Type 0
  ZeroDigest xs = env.sha256 (root_preimage xs) ≡ hash_zero

  pub merkle_like_root_binds :
      (xs ys : List (List ℕ))
      → All (λ x. length x < u64_mod) xs
      → All (λ x. length x < u64_mod) ys
      → merkle_like_root xs ≡ merkle_like_root ys
      → (xs ≡ ys) ⊎ (Collide xs ys ⊎ (ZeroDigest xs ⊎ ZeroDigest ys))
  unfolding merkle_like_root
  merkle_like_root_binds [] [] h k e = inl refl
  merkle_like_root_binds [] (y ∷ ys) h k e = inr (inr (inr (sym e)))
  merkle_like_root_binds (x ∷ xs) [] h k e = inr (inr (inl e))
  merkle_like_root_binds (x ∷ xs) (y ∷ ys) h k e =
      let a = root_preimage (x ∷ xs) in
      let b = root_preimage (y ∷ ys) in
      elim (Bool-cases (bytes_eq a b)) [
        | inl same ↦ inl (root_preimage-injective (x ∷ xs) (y ∷ ys) h k ((bytes_eq_iff a b).0 same))
        | inr differ ↦ inr (inl ((λ p. cc ((bytes_eq_iff a b).1 p)), e))
      ]

  -- Two bodies under one transactions root have the same transactions, byte for byte, unless their
  -- own two preimages collide under SHA-256, or one of the two has the digest of 32 zero bytes.
  pub transactions_root_binds :
      (ts us : List Transaction)
      → All (λ x. length x < u64_mod) (map transaction_bytes ts)
      → All (λ x. length x < u64_mod) (map transaction_bytes us)
      → transactions_root ts ≡ transactions_root us
      → (map transaction_bytes ts ≡ map transaction_bytes us)
        ⊎ (Collide (map transaction_bytes ts) (map transaction_bytes us)
            ⊎ (ZeroDigest (map transaction_bytes ts) ⊎ ZeroDigest (map transaction_bytes us)))
  unfolding transactions_root
  transactions_root_binds ts us h k e =
      merkle_like_root_binds (map transaction_bytes ts) (map transaction_bytes us) h k e

  pub header_hash-IsHash : (h : BlockHeader) → IsHash (header_hash h)
  unfolding header_hash hash_bytes
  header_hash-IsHash h = env.sha256-IsHash _

  pub transactions_root-nil : transactions_root [] ≡ hash_zero
  unfolding transactions_root merkle_like_root
  transactions_root-nil = refl

  pub receipts_root-nil : receipts_root [] ≡ hash_zero
  unfolding receipts_root merkle_like_root
  receipts_root-nil = refl
