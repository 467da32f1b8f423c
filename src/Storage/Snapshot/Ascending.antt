-- ===== src/Storage/Snapshot/Ascending.antt =====
-- Sorted maps of accounts: what an update changes, and that the entries decide the map.
use Prim.Native.Nat.{Ordering}
use blq_node.Base.{
  ℕ, ◌<◌, ◌≡◌, refl, sym, ap, ◌∙◌, true, false, if◌then◌else◌, [], ◌∷◌, Option, none, some, inl,
  inr, ◌⊎◌, All, All-imp, Pairwise, arith, Bool-cases,
}
use blq_node.Base.Bytes.{
  be_value, bytes_eq, bytes_eq_iff, bytes_eq_sym, bytes_eq_refl, bytes_cmp, bytes_cmp-be_value,
  bytes_cmp-eq,
}
use blq_node.Base.Assoc.{lookup}
use blq_node.Primitives.{Address, Bix, IsAddress}
use blq_node.Storage.Roots.{NativeAccounts}
use blq_node.Storage.Snapshot.{upsert}

abbrev pub Below : Address → NativeAccounts → Type 0
Below k m = All (λ e. be_value k < be_value e.0) m

-- The keys are addresses in ascending order.
abbrev pub IsMap : NativeAccounts → Type 0
IsMap m = All (λ e. IsAddress e.0) m × Pairwise (λ x y. be_value x.0 < be_value y.0) m

abbrev pub or_zero : Option (Bix × ℕ) → Bix × ℕ
or_zero none = (0, 0)
or_zero (some x) = x

cmp_cases :
    (a b : Address)
    → IsAddress a
    → IsAddress b
    → ((bytes_cmp a b ≡ Ordering.lt) × (be_value a < be_value b))
      ⊎ (((bytes_cmp a b ≡ Ordering.eq) × (a ≡ b))
          ⊎ ((bytes_cmp a b ≡ Ordering.gt) × (be_value b < be_value a)))
cmp_cases a b h k =
    let numbers = bytes_cmp-be_value a b (h.0 ∙ sym k.0) h.1 k.1 in
    ground (arith, numbers, bytes_cmp-eq a b)

below_other : (k j : Address) → be_value k < be_value j → bytes_eq j k ≡ false
below_other k j h = elim (Bool-cases (bytes_eq j k)) [
  | inl same ↦ let e = ap be_value ((bytes_eq_iff j k).0 same) in absurd (omega (arith, e))
  | inr other ↦ other
]

lookup-Below : (k : Address) (m : NativeAccounts) → Below k m → lookup k m ≡ none
unfolding lookup
lookup-Below k [] h = refl
lookup-Below k ((j, v) ∷ m) h = rw (below_other k j h.0) (lookup-Below k m h.1)

pub lookup-upsert :
    (k j : Address) (f : Bix × ℕ → Bix × ℕ) (m : NativeAccounts)
    → IsAddress k
    → IsMap m
    → lookup j (upsert k f m)
      ≡ (if bytes_eq k j then some (f (or_zero (lookup k m))) else lookup j m)
unfolding lookup upsert
lookup-upsert k j f [] v h = refl
lookup-upsert k j f ((i, w) ∷ m) v h = elim (cmp_cases k i v h.0.0) [
  | inl lt ↦
      let low = lookup-Below k m (All-imp (λ e p. omega arith) m h.1.0) in
      rw (lt.0, upsert) (rw (below_other k i lt.1, low) refl)
  | inr (inl eq) ↦
      let own : bytes_eq i k ≡ true = (bytes_eq_iff i k).1 (sym eq.1) in
      let same : bytes_eq k j ≡ bytes_eq i j = ap (λ x. bytes_eq x j) eq.1 in
      rw (eq.0, upsert) (ground (arith, own, same))
  | inr (inr gt) ↦
      let other : bytes_eq i k ≡ false = bytes_eq_sym i k ∙ below_other i k gt.1 in
      let ih = lookup-upsert k j f m v (h.0.1, h.1.1) in
      rw (gt.0, upsert)
        (ground (arith, other, ih, bytes_eq_iff i j, bytes_eq_iff k j, bytes_eq_iff i k))
]

All-upsert :
    (P : Address → Type 0) (k : Address) (f : Bix × ℕ → Bix × ℕ) (m : NativeAccounts)
    → P k
    → All (λ e. P e.0) m
    → All (λ e. P e.0) (upsert k f m)
unfolding upsert
All-upsert P k f [] p h = (p, tt)
All-upsert P k f ((i, w) ∷ m) p h = ground (arith, All-upsert P k f m p h.1)

pub upsert-IsMap :
    (k : Address) (f : Bix × ℕ → Bix × ℕ) (m : NativeAccounts)
    → IsAddress k
    → IsMap m
    → IsMap (upsert k f m)
unfolding upsert
upsert-IsMap k f [] v h = ((v, tt), (tt, tt))
upsert-IsMap k f ((i, w) ∷ m) v h = elim (cmp_cases k i v h.0.0) [
  | inl lt ↦
      rw (lt.0, upsert) ((v, h.0), ((lt.1, All-imp (λ e p. omega (arith, lt.1)) m h.1.0), h.1))
  | inr (inl eq) ↦ rw (eq.0, upsert) h
  | inr (inr gt) ↦
      let ih = upsert-IsMap k f m v (h.0.1, h.1.1) in
      rw (gt.0, upsert)
        ((h.0.0, ih.0), (All-upsert (λ a. be_value i < be_value a) k f m gt.1 h.1.0, ih.1))
]

none-some : {x : Bix × ℕ} → ◌≡◌ {A = Option (Bix × ℕ)} none (some x) → ⊥
none-some h = cc

found_first : (j : Address) (w : Bix × ℕ) (m : NativeAccounts) → lookup j ((j, w) ∷ m) ≡ some w
unfolding lookup
found_first j w m = rw (bytes_eq_refl j) refl

cons_same :
    {i j : Address} {v w : Bix × ℕ} {xs ys : NativeAccounts}
    → i ≡ j
    → v ≡ w
    → xs ≡ ys
    → ◌≡◌ {A = NativeAccounts} ((i, v) ∷ xs) ((j, w) ∷ ys)
cons_same a b c = cc

-- Maps with the same entries are the same.
pub map_ext :
    (xs ys : NativeAccounts)
    → IsMap xs
    → IsMap ys
    → ((j : Address) → IsAddress j → lookup j xs ≡ lookup j ys)
    → xs ≡ ys
unfolding lookup
map_ext [] [] h k same = refl
map_ext [] ((j, w) ∷ ys) h k same = absurd (none-some (same j k.0.0 ∙ found_first j w ys))
map_ext ((i, v) ∷ xs) [] h k same = absurd (none-some (sym (same i h.0.0) ∙ found_first i v xs))
map_ext ((i, v) ∷ xs) ((j, w) ∷ ys) h k same = elim (cmp_cases i j h.0.0 k.0.0) [
  | inl lt ↦
      let low =
        lookup-Below i ((j, w) ∷ ys) (lt.1, All-imp (λ e p. omega (arith, lt.1)) ys k.1.0) in
      absurd (none-some (sym low ∙ sym (same i h.0.0) ∙ found_first i v xs))
  | inr (inr gt) ↦
      let low =
        lookup-Below j ((i, v) ∷ xs) (gt.1, All-imp (λ e p. omega (arith, gt.1)) xs h.1.0) in
      absurd (none-some (sym low ∙ same j k.0.0 ∙ found_first j w ys))
  | inr (inl eq) ↦
      let first =
        sym (found_first i v xs)
        ∙ same i h.0.0
        ∙ ap (λ x. lookup x ((j, w) ∷ ys)) eq.1
        ∙ found_first j w ys in
      let value : v ≡ w = cc in
      let tails =
        map_ext xs ys (h.0.1, h.1.1) (k.0.1, k.1.1)
          (λ a va. elim (Bool-cases (bytes_eq i a)) [
            | inl here ↦
                let at : i ≡ a = (bytes_eq_iff i a).0 here in
                ap (λ x. lookup x xs) (sym at)
                ∙ lookup-Below i xs h.1.0
                ∙ sym (lookup-Below j ys k.1.0)
                ∙ ap (λ x. lookup x ys) (sym eq.1 ∙ at)
            | inr other ↦
                let there : bytes_eq j a ≡ false = ap (λ x. bytes_eq x a) (sym eq.1) ∙ other in
                let both = same a va in rw (other, there) at both
          ]) in
      cons_same eq.1 value tails
]
