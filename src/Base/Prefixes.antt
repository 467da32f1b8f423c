-- ===== src/Base/Prefixes.antt =====
-- Prefixes of byte sequences, and their parts: `starts_with`, `strip_prefix`, `position`.
use mathlib.Core.Path.{subst}
use blq_node.Base.{
  Bool-cases, inl, inr, ℕ, ◌≡◌, refl, Bool, true, false, ◌&&◌, List, [], ◌∷◌, ◌++◌, Option, some,
  none, arith, ◌==◌, if◌then◌else◌, All,
}
use blq_node.Base.Bytes.{bytes_eq, bytes_eq_iff}

abbrev pub starts_with : List ℕ → List ℕ → Bool
starts_with [] bs = true
starts_with (p ∷ ps) [] = false
starts_with (p ∷ ps) (b ∷ bs) = (p == b) && starts_with ps bs

abbrev pub strip_prefix : List ℕ → List ℕ → Option (List ℕ)
strip_prefix [] bs = some bs
strip_prefix (p ∷ ps) [] = none
strip_prefix (p ∷ ps) (b ∷ bs) = if p == b then strip_prefix ps bs else none

-- The parts before and after the first occurrence of a byte.
abbrev pub split_at_byte : ℕ → List ℕ → Option (List ℕ × List ℕ)
split_at_byte c [] = none
split_at_byte c (b ∷ bs) =
    let rest = split_at_byte c bs in
    if b == c
    then some ([], bs)
    else (elim rest [ none ↦ none | some parts ↦ some (b ∷ parts.0, parts.1) ])

pub starts_with-append : (p bs : List ℕ) → starts_with p (p ++ bs) ≡ true
starts_with-append [] bs = refl
starts_with-append (p ∷ ps) bs = ground (arith, starts_with-append ps bs)

pub strip_prefix-append : (p bs : List ℕ) → strip_prefix p (p ++ bs) ≡ some bs
strip_prefix-append [] bs = refl
strip_prefix-append (p ∷ ps) bs = ground (arith, strip_prefix-append ps bs)

-- A key of one family differs from any key of another.
pub bytes_eq-apart : (p bs j : List ℕ) → starts_with p j ≡ false → bytes_eq (p ++ bs) j ≡ false
unfolding bytes_eq
bytes_eq-apart [] bs j h = cc
bytes_eq-apart (p ∷ ps) bs [] h = refl
bytes_eq-apart (p ∷ ps) bs (b ∷ j) h = ground (arith, bytes_eq-apart ps bs j)

pub bytes_eq-append : (p xs ys : List ℕ) → bytes_eq (p ++ xs) (p ++ ys) ≡ bytes_eq xs ys
unfolding bytes_eq
bytes_eq-append [] xs ys = refl
bytes_eq-append (p ∷ ps) xs ys = ground (arith, bytes_eq-append ps xs ys)

pub split_at_byte-append :
    (c : ℕ) (xs ys : List ℕ)
    → All (λ b. (b == c) ≡ false) xs
    → split_at_byte c (xs ++ (c ∷ ys)) ≡ some (xs, ys)
split_at_byte-append c [] ys h = ground arith
split_at_byte-append c (x ∷ xs) ys h = rw (h.0, split_at_byte-append c xs ys h.1) refl

-- A key with a prefix is none without it.
pub prefix_apart :
    (p k j : List ℕ) → starts_with p k ≡ true → starts_with p j ≡ false → bytes_eq k j ≡ false
prefix_apart p k j h n = elim (Bool-cases (bytes_eq k j)) [
  | inl same ↦
      let e : k ≡ j = (bytes_eq_iff k j).0 same in
      let bad : starts_with p j ≡ true = subst (λ x. starts_with p x ≡ true) e h in cc
  | inr other ↦ other
]
