-- ===== src/Base/Pairs.antt =====
-- How `push`, `pop`, `retain` and `find` act on what holds of all items, or of every two.
use blq_node.Base.{
  suc, ◌≤◌, ◌<◌, ◌≡◌, refl, Bool, true, false, List, [], ◌∷◌, ◌++◌, some, none, arith, length, All,
  Pairwise, find, filter, get_last?, drop_last,
}

module _ {A : Type 0} where
  pub find-none : (p : A → Bool) (xs : List A) → find p xs ≡ none → All (λ x. p x ≡ false) xs
  find-none p [] h = tt
  find-none p (x ∷ xs) h = ground (arith, find-none p xs)

  pub find-some : (p : A → Bool) (xs : List A) (a : A) → find p xs ≡ some a → p a ≡ true
  find-some p [] a h = cc
  find-some p (x ∷ xs) a h = ground (arith, find-some p xs a)

  pub All-find :
      (P : A → Type 0) (p : A → Bool) (xs : List A) (a : A) → All P xs → find p xs ≡ some a → P a
  All-find P p [] a h e = cc
  All-find P p (x ∷ xs) a h e = ground (arith, All-find P p xs a h.1)

  pub All-filter : (P : A → Type 0) (p : A → Bool) (xs : List A) → All P xs → All P (filter p xs)
  All-filter P p [] h = tt
  All-filter P p (x ∷ xs) h = ground (arith, All-filter P p xs h.1)

  -- Every item that stays passes the test.
  pub All-filter_self : (p : A → Bool) (xs : List A) → All (λ x. p x ≡ true) (filter p xs)
  All-filter_self p [] = tt
  All-filter_self p (x ∷ xs) = ground (arith, All-filter_self p xs)

  pub length-filter : (p : A → Bool) (xs : List A) → length (filter p xs) ≤ length xs
  length-filter p [] = omega arith
  length-filter p (x ∷ xs) = ground (arith, length-filter p xs)

  pub All-drop_last : (P : A → Type 0) (xs : List A) → All P xs → All P (drop_last xs)
  All-drop_last P [] h = tt
  All-drop_last P (x ∷ []) h = tt
  All-drop_last P (x ∷ y ∷ xs) h = (h.0, All-drop_last P (y ∷ xs) h.1)

  pub length-drop_last :
      (xs : List A) {l : A} → get_last? xs ≡ some l → suc (length (drop_last xs)) ≡ length xs
  length-drop_last [] h = cc
  length-drop_last (x ∷ []) h = refl
  length-drop_last (x ∷ y ∷ xs) h = omega (arith, length-drop_last (y ∷ xs) h)

  pub get_last?-ne-none : (xs : List A) → 0 < length xs → (l : A) × (get_last? xs ≡ some l)
  get_last?-ne-none [] h = absurd (omega arith)
  get_last?-ne-none (x ∷ []) h = (x, refl)
  get_last?-ne-none (x ∷ y ∷ xs) h = get_last?-ne-none (y ∷ xs) (omega arith)

  pub All-last : (P : A → Type 0) (xs : List A) {l : A} → All P xs → get_last? xs ≡ some l → P l
  All-last P [] h e = cc
  All-last P (x ∷ []) h e = ground arith
  All-last P (x ∷ y ∷ xs) h e = All-last P (y ∷ xs) h.1 e

  pub All-snoc : (P : A → Type 0) (xs : List A) (a : A) → All P xs → P a → All P (xs ++ (a ∷ []))
  All-snoc P [] a h k = (k, tt)
  All-snoc P (x ∷ xs) a h k = (h.0, All-snoc P xs a h.1 k)

  module _ (R : A → A → Type 0) where
    pub Pairwise-filter : (p : A → Bool) (xs : List A) → Pairwise R xs → Pairwise R (filter p xs)
    Pairwise-filter p [] h = tt
    Pairwise-filter p (x ∷ xs) h =
        ground (arith, Pairwise-filter p xs h.1, All-filter (R x) p xs h.0)

    pub Pairwise-drop_last : (xs : List A) → Pairwise R xs → Pairwise R (drop_last xs)
    Pairwise-drop_last [] h = tt
    Pairwise-drop_last (x ∷ []) h = tt
    Pairwise-drop_last (x ∷ y ∷ xs) h =
        (All-drop_last (R x) (y ∷ xs) h.0, Pairwise-drop_last (y ∷ xs) h.1)

    -- The last item stands in the relation to all others.
    pub Pairwise-last :
        (xs : List A) {l : A}
        → Pairwise R xs
        → get_last? xs ≡ some l
        → All (λ x. R x l) (drop_last xs)
    Pairwise-last [] h e = tt
    Pairwise-last (x ∷ []) h e = tt
    Pairwise-last (x ∷ y ∷ xs) h e = (All-last (R x) (y ∷ xs) h.0 e, Pairwise-last (y ∷ xs) h.1 e)

    pub Pairwise-snoc :
        (xs : List A) (a : A) → Pairwise R xs → All (λ x. R x a) xs → Pairwise R (xs ++ (a ∷ []))
    Pairwise-snoc [] a h k = (tt, tt)
    Pairwise-snoc (x ∷ xs) a h k = (All-snoc (R x) xs a h.0 k.0, Pairwise-snoc xs a h.1 k.1)
