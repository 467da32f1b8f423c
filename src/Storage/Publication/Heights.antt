-- ===== src/Storage/Publication/Heights.antt =====
-- The blocks that a publication removes and inserts, by their heights.
use mathlib.Core.Path.{subst}
use blq_node.Base.{
  ℕ, suc, ◌+◌, ◌≤◌, ◌<◌, ◌≡◌, refl, ◌∙◌, false, ◌==◌, ◌&&◌, leb, ltb, if◌then◌else◌, List, [], ◌∷◌,
  ◌++◌, Option, none, some, Option-cases, inl, inr, Bool-cases, arith, length, map, concat, find,
  ok, err, ◌>>=◌, ok_injective, >>=-eq-ok, u64_mod,
}
use blq_node.Externals.{Externals}
use blq_node.Database.{Hex, BatchOp, pending}
use blq_node.Primitives.{Block}
use blq_node.Storage.Blocks.{Json, insert_block_into_batch, remove_block_from_batch}
use blq_node.Storage.Publication.{panicked, replacement_ops}
use blq_node.Storage.Publication.Batch.{later, pending-append}

-- Blocks at consecutive heights from `m` on.
abbrev pub Numbered : ℕ → List Block → Type 0
Numbered m [] = Unit
Numbered m (b ∷ bs) = (b.header.number ≡ m) × Numbered (suc m) bs

abbrev pub find_block : ℕ → List Block → Option Block
find_block n bs = find (λ b. b.header.number == n) bs

pub find_below : (n m : ℕ) (bs : List Block) → n < m → Numbered m bs → find_block n bs ≡ none
find_below n m [] h v = refl
find_below n m (b ∷ bs) h v =
    let other : (b.header.number == n) ≡ false = ground (arith, v.0) in
    rw other (find_below n (suc m) bs (omega arith) v.1)

later-none : (o : Option (Option (List ℕ))) → later o none ≡ o
later-none none = refl
later-none (some r) = refl

-- What a batch holds for a key of the block that is found.
abbrev pub entered : (Block → List ℕ) → Option Block → Option (Option (List ℕ))
entered value none = none
entered value (some b) = some (some (value b))

module _ ⦃json : Json⦄ ⦃hex : Hex⦄ ⦃env : Externals⦄ where
  -- The key `j` belongs to the height `n`, and holds `value` of the block there.
  pub record IsHeightKey (j : List ℕ) (n : ℕ) (value : Block → List ℕ) : Type 0 where
    pub enters :
        (b : Block) (ops : List BatchOp)
        → b.header.number < u64_mod
        → insert_block_into_batch b ≡ some ops
        → pending j ops ≡ (if b.header.number == n then some (some (value b)) else none)
    pub leaves :
        (b : Block)
        → b.header.number < u64_mod
        → pending j (remove_block_from_batch b) ≡ (if b.header.number == n then some none else none)

  entry_step :
      (value : Block → List ℕ) (n m : ℕ) (b : Block) (bs : List Block)
      → b.header.number ≡ m
      → Numbered (suc m) bs
      → later
          (entered value (find_block n bs))
          (if b.header.number == n then some (some (value b)) else none)
        ≡ entered value (find_block n (b ∷ bs))
  entry_step value n m b bs e v = elim (Bool-cases (b.header.number == n)) [
    | inl here ↦
        let below : n < suc m = ground (arith, here) in
        rw (here, find_below n (suc m) bs below v) refl
    | inr other ↦ rw other (later-none _)
  ]

  pub replacement_pending :
      {j : List ℕ} {n : ℕ} {value : Block → List ℕ}
      → IsHeightKey j n value
      → (m : ℕ) (bs : List Block) (ops : List BatchOp) → Numbered m bs
      → m + length bs ≤ u64_mod
      → replacement_ops bs ≡ ok ops
      → pending j ops ≡ entered value (find_block n bs)
  unfolding replacement_ops
  replacement_pending {j} k m [] ops v room h =
      subst (λ xs. pending j xs ≡ none) (ok_injective h) refl
  replacement_pending {j} {n} {value} k m (b ∷ bs) ops v room h =
      elim (Option-cases (insert_block_into_batch b)) [
        | inl e ↦ let bad : err panicked ≡ ok ops = rw (e, replacement_ops) at h in absurd (cc)
        | inr (xs, e) ↦
            let g : (replacement_ops bs >>= λ more. ok (xs ++ more)) ≡ ok ops =
              rw (e, replacement_ops) at h in
            let (more, q, last) = >>=-eq-ok (replacement_ops bs) _ g in
            let ih = replacement_pending k (suc m) bs more v.1 (omega arith) q in
            let own = k.enters b xs (omega (arith, v.0)) e in
            subst (λ ys. pending j ys ≡ entered value (find_block n (b ∷ bs))) (ok_injective last)
              (pending-append j xs more ∙ rw (ih, own) (entry_step value n m b bs v.0 v.1))
      ]

  pub removed_pending :
      {j : List ℕ} {n : ℕ} {value : Block → List ℕ}
      → IsHeightKey j n value
      → (m : ℕ) (bs : List Block) → Numbered m bs
      → m + length bs ≤ u64_mod
      → pending j (concat (map remove_block_from_batch bs))
        ≡ (if leb m n && ltb n (m + length bs) then some none else none)
  removed_pending {j} {n} k m [] v room =
      let out : (leb m n && ltb n (m + 0)) ≡ false = ground arith in rw out refl
  removed_pending {j} {n} k m (b ∷ bs) v room =
      let ih = removed_pending k (suc m) bs v.1 (omega arith) in
      let own = k.leaves b (omega (arith, v.0)) in
      pending-append j (remove_block_from_batch b) (concat (map remove_block_from_batch bs))
      ∙ rw (ih, own) (ground (arith, v.0))
