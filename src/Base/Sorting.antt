-- ===== src/Base/Sorting.antt =====
-- `Vec::sort_by`: the stable order of a list under a comparison that is a total preorder.
use Prim.Native.Nat.{Ordering}
use blq_node.Base.{
  suc, ◌≡◌, refl, Bool, true, false, List, [], ◌∷◌, arith, length, All, All-imp, Pairwise,
}

abbrev pub not_gt : Ordering → Bool
not_gt Ordering.gt = false
not_gt Ordering.lt = true
not_gt Ordering.eq = true

module _ {A : Type 0} (cmp : A → A → Ordering) where
  pub insert_sorted : A → List A → List A
  insert_sorted x [] = x ∷ []
  insert_sorted x (y ∷ ys) = elim (cmp x y) [
    | Ordering.gt ↦ y ∷ insert_sorted x ys
    | _ ↦ x ∷ y ∷ ys
  ]

  pub sort_by : List A → List A
  sort_by [] = []
  sort_by (x ∷ xs) = insert_sorted x (sort_by xs)

  abbrev pub IsSorted : List A → Type 0
  IsSorted xs = Pairwise (λ x y. not_gt (cmp x y) ≡ true) xs

  pub length-insert_sorted : (x : A) (xs : List A) → length (insert_sorted x xs) ≡ suc (length xs)
  unfolding insert_sorted
  length-insert_sorted x [] = refl
  length-insert_sorted x (y ∷ ys) = ground (arith, length-insert_sorted x ys)

  pub length-sort_by : (xs : List A) → length (sort_by xs) ≡ length xs
  unfolding sort_by
  length-sort_by [] = refl
  length-sort_by (x ∷ xs) = omega (arith, length-insert_sorted x (sort_by xs), length-sort_by xs)

  All-insert_sorted :
      (P : A → Type 0) (x : A) (xs : List A) → P x → All P xs → All P (insert_sorted x xs)
  unfolding insert_sorted
  All-insert_sorted P x [] h k = (h, tt)
  All-insert_sorted P x (y ∷ ys) h k = ground (arith, All-insert_sorted P x ys h k.1)

  pub All-sort_by : (P : A → Type 0) (xs : List A) → All P xs → All P (sort_by xs)
  unfolding sort_by
  All-sort_by P [] h = tt
  All-sort_by P (x ∷ xs) h = All-insert_sorted P x (sort_by xs) h.0 (All-sort_by P xs h.1)

  All-of_insert_sorted :
      (P : A → Type 0) (x : A) (xs : List A) → All P (insert_sorted x xs) → P x × All P xs
  unfolding insert_sorted
  All-of_insert_sorted P x [] h = (h.0, tt)
  All-of_insert_sorted P x (y ∷ ys) h = ground (arith, All-of_insert_sorted P x ys)

  pub All-of_sort_by : (P : A → Type 0) (xs : List A) → All P (sort_by xs) → All P xs
  unfolding sort_by
  All-of_sort_by P [] h = tt
  All-of_sort_by P (x ∷ xs) h =
      let parts = All-of_insert_sorted P x (sort_by xs) h in (parts.0, All-of_sort_by P xs parts.1)

  -- A relation that does not depend on the order survives sorting.
  module _ (R : A → A → Type 0) (symmetric : (x y : A) → R x y → R y x) where
    Pairwise-insert_sorted :
        (x : A) (xs : List A) → All (R x) xs → Pairwise R xs → Pairwise R (insert_sorted x xs)
    unfolding insert_sorted
    Pairwise-insert_sorted x [] h k = (tt, tt)
    Pairwise-insert_sorted x (y ∷ ys) h k = ground (
      arith,
      Pairwise-insert_sorted x ys h.1 k.1,
      All-insert_sorted (R y) x ys (symmetric x y h.0) k.0,
    )

    pub Pairwise-sort_by : (xs : List A) → Pairwise R xs → Pairwise R (sort_by xs)
    unfolding sort_by
    Pairwise-sort_by [] h = tt
    Pairwise-sort_by (x ∷ xs) h =
        Pairwise-insert_sorted x (sort_by xs) (All-sort_by (R x) xs h.0) (Pairwise-sort_by xs h.1)

  -- A list that is in order already does not change.
  pub sort_by-sorted : (xs : List A) → IsSorted xs → sort_by xs ≡ xs
  unfolding sort_by insert_sorted
  sort_by-sorted [] h = refl
  sort_by-sorted (x ∷ []) h = refl
  sort_by-sorted (x ∷ y ∷ ys) h = rw (sort_by-sorted (y ∷ ys) h.1) (ground arith)

  module _ (total : (x y : A) → cmp x y ≡ Ordering.gt → not_gt (cmp y x) ≡ true)
      (trans : (x y z : A)
        → not_gt (cmp x y) ≡ true
        → not_gt (cmp y z) ≡ true
        → not_gt (cmp x z) ≡ true) where
    All-below :
        (x y : A) (ys : List A)
        → not_gt (cmp x y) ≡ true
        → All (λ z. not_gt (cmp y z) ≡ true) ys
        → All (λ z. not_gt (cmp x z) ≡ true) ys
    All-below x y ys h k = All-imp (λ z. trans x y z h) ys k

    insert_sorted-IsSorted : (x : A) (xs : List A) → IsSorted xs → IsSorted (insert_sorted x xs)
    unfolding insert_sorted
    insert_sorted-IsSorted x [] h = (tt, tt)
    insert_sorted-IsSorted x (y ∷ ys) h = ground (
      arith,
      total x y,
      All-insert_sorted (λ z. not_gt (cmp y z) ≡ true) x ys,
      insert_sorted-IsSorted x ys h.1,
      All-below x y ys,
    )

    pub sort_by-IsSorted : (xs : List A) → IsSorted (sort_by xs)
    unfolding sort_by
    sort_by-IsSorted [] = tt
    sort_by-IsSorted (x ∷ xs) = insert_sorted-IsSorted x (sort_by xs) (sort_by-IsSorted xs)
