-- ===== src/Miner/Search.antt =====
-- The search returns the first nonce of its range that wins, and fails only if none does.
use native.Mathlib.Decide.{dec_lt}
use blq_node.Base.{
  ℕ, zero, suc, ◌+◌, ◌-◌, ◌≤◌, ◌<◌, ◌≡◌, sym, some, none, true, false, arith, u64_max, Bool-cases,
  inl, inr, min, ◌∙◌,
}
use blq_node.Externals.{Externals}
use blq_node.Primitives.{Hash256}
use blq_node.Pow.Preimage.{blq_rx_hash-mix_hash}
use blq_node.Miner.{
  BlockTemplate, with_nonce, nonce_wins, try_nonces, seal_empty_template_with_genesis,
}

module _ ⦃env : Externals⦄ where
  -- A mix hash that a lost attempt left behind changes nothing.
  nonce_wins-with_nonce :
      (t : BlockTemplate) (n m : ℕ) (g : Hash256)
      → nonce_wins (with_nonce t n g) m g ≡ nonce_wins t m g
  unfolding nonce_wins with_nonce
  nonce_wins-with_nonce t n m g = rw (blq_rx_hash-mix_hash (record (t.header) { nonce = m }) g _)

  with_nonce-with_nonce :
      (t : BlockTemplate) (n m : ℕ) (g : Hash256)
      → with_nonce (with_nonce t n g) m g ≡ with_nonce t m g
  unfolding with_nonce
  with_nonce-with_nonce t n m g = rw (blq_rx_hash-mix_hash (record (t.header) { nonce = m }) g _)

  try_nonces-some :
      (left n : ℕ) (t : BlockTemplate) (g : Hash256) {s : BlockTemplate}
      → try_nonces left n t g ≡ some s
      → (m : ℕ) × (n ≤ m)
        × (m < n + left)
        × (s ≡ with_nonce t m g)
        × (nonce_wins t m g ≡ true)
        × ((k : ℕ) → n ≤ k → k < m → nonce_wins t k g ≡ false)
  unfolding try_nonces
  try_nonces-some zero n t g h = cc
  try_nonces-some (suc left) n t g {s} h = elim (Bool-cases (nonce_wins t n g)) [
    | inl w ↦
        let e : some (with_nonce t n g) ≡ some s = rw (w, try_nonces) at h in
        (n, omega arith, omega arith, cc, w, λ k lo hi. absurd (omega arith))
    | inr lost ↦
        let (m, lo, hi, e, w, before) =
          try_nonces-some left (n + 1) (with_nonce t n g) g (rw (lost, try_nonces) at h) in
        (
          m,
          omega arith,
          omega arith,
          e ∙ with_nonce-with_nonce t n m g,
          sym (nonce_wins-with_nonce t n m g) ∙ w,
          λ k from below. elim (dec_lt n k) [
            | yes after ↦ sym (nonce_wins-with_nonce t n k g) ∙ before k (omega arith) below
            | no first ↦ let same : k ≡ n = omega arith in rw same lost
          ],
        )
  ]

  try_nonces-none :
      (left n : ℕ) (t : BlockTemplate) (g : Hash256)
      → try_nonces left n t g ≡ none
      → (k : ℕ) → n ≤ k
      → k < n + left
      → nonce_wins t k g ≡ false
  unfolding try_nonces
  try_nonces-none zero n t g h k lo hi = absurd (omega arith)
  try_nonces-none (suc left) n t g h k lo hi = elim (Bool-cases (nonce_wins t n g)) [
    | inl w ↦ let e : some (with_nonce t n g) ≡ none = rw (w, try_nonces) at h in cc
    | inr lost ↦
        let after : try_nonces left (n + 1) (with_nonce t n g) g ≡ none =
          rw (lost, try_nonces) at h in
        elim (dec_lt n k) [
          | yes later ↦
              sym (nonce_wins-with_nonce t n k g)
              ∙ try_nonces-none left (n + 1) (with_nonce t n g) g after k (omega arith)
                  (omega arith)
          | no first ↦ let same : k ≡ n = omega arith in rw same lost
        ]
  ]

  -- A sealed template is the given one with the first nonce of the range that meets the target,
  -- and with the mix hash of that nonce.
  pub seal_found :
      (t : BlockTemplate) (start limit : ℕ) (g : Hash256) {s : BlockTemplate}
      → seal_empty_template_with_genesis t start limit g ≡ some s
      → (m : ℕ) × (start ≤ m)
        × (m < start + limit)
        × (s ≡ with_nonce t m g)
        × (nonce_wins t m g ≡ true)
        × ((k : ℕ) → start ≤ k → k < m → nonce_wins t k g ≡ false)
  unfolding seal_empty_template_with_genesis
  seal_found t start limit g h =
      let left = min (start + limit) u64_max - start in
      let (m, lo, hi, e, w, first) = try_nonces-some left start t g h in
      (m, lo, omega arith, e, w, first)

  -- Where no template comes back, no nonce of the range meets the target.
  pub seal_none :
      (t : BlockTemplate) (start limit : ℕ) (g : Hash256)
      → seal_empty_template_with_genesis t start limit g ≡ none
      → (k : ℕ) → start ≤ k
      → k < start + limit
      → k < u64_max
      → nonce_wins t k g ≡ false
  unfolding seal_empty_template_with_genesis
  seal_none t start limit g h k lo hi word =
      try_nonces-none (min (start + limit) u64_max - start) start t g h k lo (omega arith)
