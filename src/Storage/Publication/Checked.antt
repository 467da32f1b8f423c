-- ===== src/Storage/Publication/Checked.antt =====
-- What the checks before a publication establish.
use mathlib.Core.Path.{subst}
use blq_node.Base.{
  then_ok, ℕ, suc, ◌+◌, ◌≤◌, ◌≡◌, refl, sym, ap, ◌∙◌, true, false, not, ◌==◌, ◌||◌, ltb, List, [],
  ◌∷◌, Option, none, some, Option-cases, inl, inr, arith, length, Result, ok, err, >>=-eq-ok,
  ok_injective,
}
use blq_node.Base.Bytes.{bytes_eq, bytes_eq_sym}
use blq_node.Externals.{Externals}
use blq_node.Database.{Hex, Sled}
use blq_node.Primitives.{BlockHeader, Block, header_hash, is_empty}
use blq_node.Storage.Keys.{StorageError, serialization}
use blq_node.Storage.Blocks.{Json, best_header, header_by_number}
use blq_node.Storage.Generation.{GenerationManifest, Files, load_file, names_tip}
use blq_node.Storage.Publication.{
  Suffix, suffix_tip, is_contiguous, matches_tip, is_some_of, check_suffix,
}
use blq_node.Storage.Publication.Heights.{Numbered, find_block}

module _ {Db : Type 0} ⦃sled : Sled Db⦄ ⦃json : Json⦄ ⦃hex : Hex⦄ ⦃env : Externals⦄ where
  pub record Checked (s : Suffix) (f : Files) (d : Db) (previous : GenerationManifest)
      (best : BlockHeader) : Type 0 where
    pub loaded : load_file f.manifest ≡ ok (some previous)
    pub newest : best_header d ≡ ok best
    pub known : s.ancestor.number ≤ best.number
    pub contiguous : is_contiguous s.ancestor s.replacement ≡ true
    pub nonempty : is_empty s.replacement ≡ false
    pub matches : matches_tip s.target_manifest (suffix_tip s.ancestor s.replacement) ≡ true

  pub check_suffix-Checked :
      (s : Suffix) (f : Files) (d : Db) (previous : GenerationManifest) (best : BlockHeader)
      → check_suffix s f d ≡ ok (previous, best)
      → Checked s f d previous best
  unfolding check_suffix
  check_suffix-Checked s f d previous best h =
      let (loaded, l, g) = >>=-eq-ok (load_file f.manifest) _ h in
      elim (Option-cases loaded) [
        | inl e ↦
            let bad : ◌≡◌ {A = Result (GenerationManifest × BlockHeader) StorageError}
                (err serialization) (ok (previous, best)) =
              rw e at g in
            absurd (cc)
        | inr (p, e) ↦
            let (b, n, g1) = >>=-eq-ok (best_header d) _ (rw e at g) in
            let (low, g2) = then_ok (ltb b.number s.ancestor.number) serialization _ g1 in
            let (header, hd, g3) = >>=-eq-ok (header_by_number s.ancestor.number d) _ g2 in
            let (same, g4) =
              then_ok (not (bytes_eq (header_hash header) (header_hash s.ancestor))) serialization _
                g3 in
            let (cont, g5) =
              then_ok (not (is_contiguous s.ancestor s.replacement)) serialization _ g4 in
            let (tip, g6) =
              then_ok
                (is_empty s.replacement
                  || not (matches_tip s.target_manifest (suffix_tip s.ancestor s.replacement)))
                serialization _ g5 in
            let pair = ok_injective g6 in
            let old : p ≡ previous = ap (λ x. x.0) pair in
            let new : b ≡ best = ap (λ x. x.1) pair in
            let low' : ltb best.number s.ancestor.number ≡ false =
              subst (λ x. ltb x.number s.ancestor.number ≡ false) new low in
            record {
              loaded = l ∙ ap ok (e ∙ ap some old);
              newest = n ∙ ap ok new;
              known = ground (arith, low');
              contiguous = ground (arith, cont);
              nonempty = ground (arith, tip);
              matches = ground (arith, tip);
            }
      ]

-- The number of the last is its distance from the parent.
tip_number :
    (parent : BlockHeader) (bs : List Block)
    → Numbered (suc parent.number) bs
    → (suffix_tip parent bs).number ≡ parent.number + length bs
unfolding suffix_tip
tip_number parent [] v = omega arith
tip_number parent (b ∷ bs) v =
    let rest = tip_number b.header bs (subst (λ m. Numbered (suc m) bs) (sym v.0) v.1) in
    omega (arith, rest, v.0)

-- The last block of a numbered list is found at its number.
pub find_last :
    (parent : BlockHeader) (bs : List Block)
    → Numbered (suc parent.number) bs
    → is_empty bs ≡ false
    → (b : Block) × (find_block (suffix_tip parent bs).number bs ≡ some b)
      × (b.header ≡ suffix_tip parent bs)
unfolding suffix_tip
find_last parent [] v h = absurd (cc)
find_last parent (b ∷ []) v h =
    let here : (b.header.number == b.header.number) ≡ true = ground arith in
    (b, (rw here refl), refl)
find_last parent (b ∷ c ∷ bs) v h =
    let w : Numbered (suc b.header.number) (c ∷ bs) =
      subst (λ m. Numbered (suc m) (c ∷ bs)) (sym v.0) v.1 in
    let (x, p, e) = find_last b.header (c ∷ bs) w refl in
    let far : (suffix_tip c.header bs).number ≡ b.header.number + suc (length bs) =
      tip_number b.header (c ∷ bs) w in
    let other : (b.header.number == (suffix_tip c.header bs).number) ≡ false =
      ground (arith, far) in
    (x, (rw other p), e)

replayed : (o : Option ℕ) (n : ℕ) → is_some_of n o ≡ true → o ≡ some n
replayed none n h = absurd (cc)
replayed (some m) n h = let e : m ≡ n = ground (arith, h) in ap some e

module _ ⦃env : Externals⦄ where
  pub matches_tip-names_tip :
      (m : GenerationManifest) (tip : BlockHeader)
      → matches_tip m tip ≡ true
      → (names_tip m tip ≡ true) × (m.replay_checkpoint ≡ some tip.number)
  unfolding matches_tip names_tip
  matches_tip-names_tip m tip h = (
    ground (
      arith,
      bytes_eq_sym m.canonical_hash (header_hash tip),
      bytes_eq_sym m.state_root tip.state_root,
    ),
    replayed m.replay_checkpoint tip.number (ground (arith, h)),
  )
